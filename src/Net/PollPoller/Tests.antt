-- ===== src/Net/PollPoller/Tests.antt =====
-- A poller of two channels.
use dws.Base.{
  Returns, Returns-ok, ℕ, zero, suc, ◌≡◌, refl, List, [], ◌∷◌, ◌++◌, Option, none, some, true,
  false, if◌then◌else◌, ◌==◌, map, replicate, Result, ok, err, assertion,
}
use dws.Base.Int.{ℤ, pos, negsuc}
use dws.Net.Channel.{Channel, Events, none_event}
use dws.Net.PollPoller.{
  PollPoller, PollFd, init, zero_entry, update_channel, remove_channel, fill_active_channels,
}
use dws.Net.PollPoller.Inv.{Inv, init-Inv}
use dws.Net.PollPoller.Update.{Shows, update_channel-Inv, update_channel-new}
use dws.Net.PollPoller.Remove.{remove_channel-Inv}
use dws.Net.PollPoller.Active.{active, reported, Known, fill_active_channels_lem}

abbrev readable : Events
readable = record none_event { pollin = true }

abbrev channel_of : ℕ → Events → ℤ → Channel
channel_of fd events index = record {
  fd = fd;
  events = events;
  revents = none_event;
  index = index;
  tied = false;
  event_handling = false;
  added_to_loop = true;
}

-- Channel 1 is to wait on descriptor 7, channel 2 is done with descriptor 8.
abbrev objects : ℕ → Channel
objects a = if a == 1 then channel_of 7 readable (negsuc 0) else channel_of 8 none_event (negsuc 0)

abbrev value {ℓ} : {A : Type ℓ} → Result A → A → A
value (ok a) d = a
value (err e) d = d

-- A new poller, to which the two are added.
abbrev one : PollPoller
unfolding init update_channel
one = value (update_channel (init objects) 1) (init objects)

abbrev two : PollPoller
unfolding init update_channel
two = value (update_channel one 2) one

one-Inv : Inv one
unfolding init update_channel
one-Inv =
    (Returns-ok (update_channel-new (init objects) 1 0 (init-Inv objects) refl refl)
      (refl {a = ok one})).0

two-Inv : Inv two
unfolding init update_channel
two-Inv = (Returns-ok (update_channel-new one 2 0 one-Inv refl refl) (refl {a = ok two})).0

-- Channel 2 has no event, which its entry does not show yet.
abbrev ignored : PollPoller
unfolding init update_channel
ignored = value (update_channel two 2) two

ignored-Inv : Inv ignored
unfolding init update_channel
ignored-Inv = (Returns-ok (update_channel-Inv two 2 two-Inv refl) (refl {a = ok ignored})).0

update_channel-Inv_example : Returns (update_channel two 1) (λ q. Inv q × Shows two 1 q)
unfolding init update_channel
update_channel-Inv_example = update_channel-Inv two 1 two-Inv refl

remove_channel-Inv_example : Returns (remove_channel ignored 2) (λ q. Inv q × (q.channels 8 ≡ none))
unfolding init update_channel
remove_channel-Inv_example = remove_channel-Inv ignored 2 17 ignored-Inv refl refl refl refl

-- The entries of the poller, with an event for channel 1.
abbrev pollfds : List PollFd
pollfds =
    replicate 16 zero_entry ++ record { fd = pos 7; events = readable; revents = readable } ∷ []

abbrev channels : ℕ → Option ℕ
channels fd = if fd == 7 then some 1 else none

zeros-Known :
    (n : ℕ) (rest : List PollFd)
    → Known channels objects rest
    → Known channels objects (replicate n zero_entry ++ rest)
zeros-Known zero rest k = k
zeros-Known (suc n) rest k = ((λ h. cc), zeros-Known n rest k)

pollfds-Known : Known channels objects pollfds
pollfds-Known =
    zeros-Known 16 (record { fd = pos 7; events = readable; revents = readable } ∷ [])
      ((λ h. (1, refl, refl)), tt)

fill_active_channels_lem_example :
    Returns
      (fill_active_channels channels pollfds (active pollfds) objects)
      (λ r. map some r.0 ≡ reported channels pollfds)
fill_active_channels_lem_example = fill_active_channels_lem channels pollfds objects pollfds-Known

-- poll(2) reports an error on descriptor 0, which no channel has: the first entry fails the assertion.
abbrev broken : Events
broken = record none_event { pollerr = true }

zero_entry_fails :
    fill_active_channels channels (record zero_entry { revents = broken } ∷ pollfds) 1 objects
    ≡ err assertion
unfolding fill_active_channels
zero_entry_fails = refl
