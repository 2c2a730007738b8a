-- ===== src/Net/EPollPoller/Tests.antt =====
-- A model of epoll_ctl(2) that meets the laws, and a poller on it.
use dws.Base.{
  Returns, ℕ, ◌+◌, ◌*◌, ◌≡◌, refl, arith, List, [], ◌∷◌, length, Option, none, some, true, false,
  if◌then◌else◌, ◌==◌, ok, err, assertion,
}
use dws.Net.Channel.{Channel, Events, none_event}
use dws.Net.PollPoller.{update_at}
use dws.Net.EPollPoller.{
  Epoll, Operation, add, del, modify, new, added, Ready, EPollPoller, update_channel,
  remove_channel, poll,
}
use dws.Net.EPollPoller.Register.{with_events, update_channel-keeps_new}
use dws.Net.EPollPoller.Poll.{addresses, poll_lem, poll-errno_zero}

-- The interest list as a function; a call that manual page rules out fails.
abbrev table_ctl : Operation → ℕ → Events → (ℕ → Option Events) → Option (ℕ → Option Events)
table_ctl add fd e k = elim (k fd) [ none ↦ some (update_at k fd (some e)) | some d ↦ none ]
table_ctl modify fd e k = elim (k fd) [ none ↦ none | some d ↦ some (update_at k fd (some e)) ]
table_ctl del fd e k = elim (k fd) [ none ↦ none | some d ↦ some (update_at k fd none) ]

update_at-same {ℓ} : {A : Type ℓ} (f : ℕ → A) (i : ℕ) (a : A) → update_at f i a i ≡ a
update_at-same f i a = ground arith

table_add :
    (k : ℕ → Option Events) (fd : ℕ) (e : Events)
    → k fd ≡ none
    → (k' : ℕ → Option Events) × (table_ctl add fd e k ≡ some k') × (k' fd ≡ some e)
table_add k fd e h = (update_at k fd (some e), rw (table_ctl, h) refl, update_at-same k fd (some e))

table_mod :
    (k : ℕ → Option Events) (fd : ℕ) (e d : Events)
    → k fd ≡ some d
    → (k' : ℕ → Option Events) × (table_ctl modify fd e k ≡ some k') × (k' fd ≡ some e)
table_mod k fd e d h =
    (update_at k fd (some e), rw (table_ctl, h) refl, update_at-same k fd (some e))

table_del :
    (k : ℕ → Option Events) (fd : ℕ) (e d : Events)
    → k fd ≡ some d
    → (k' : ℕ → Option Events) × (table_ctl del fd e k ≡ some k') × (k' fd ≡ none)
table_del k fd e d h = (update_at k fd none, rw (table_ctl, h) refl, update_at-same k fd none)

abbrev table : Epoll
table = record {
  Kernel = ℕ → Option Events;
  interest = λ k fd. k fd;
  ctl = table_ctl;
  ctl_add = table_add;
  ctl_mod = table_mod;
  ctl_del = table_del;
}

abbrev readable : Events
readable = record none_event { pollin = true }

-- Channel 1 is new, channel 2 is registered.
abbrev objects : ℕ → Channel
objects a = record {
  fd = a + 6;
  events = readable;
  revents = none_event;
  index = if a == 2 then added else new;
  tied = false;
  event_handling = false;
  added_to_loop = true;
}

abbrev poller : EPollPoller table
poller = record {
  objects = objects;
  channels = λ fd. if fd == 8 then some 2 else none;
  kernel = λ fd. if fd == 8 then some readable else none;
  event_list_size = 16;
}

abbrev ready : List Ready
ready = record { address = 2; revents = readable } ∷ []

update_channel-keeps_new_example : Returns (update_channel table poller 1) (λ q.
    (q.kernel 7 ≡ some readable)
    × ((e : Events) → update_channel table (with_events table poller 1 q e) 1 ≡ err assertion)
    × ((e : Events) → remove_channel table (with_events table poller 1 q e) 1 ≡ err assertion))
update_channel-keeps_new_example = update_channel-keeps_new table poller 1 refl refl refl

poll_lem_example : Returns (poll table poller (some ready) 4) (λ out.
    (out.0 ≡ addresses ready)
    × (out.1.event_list_size ≡ (
        if length ready == poller.event_list_size
        then poller.event_list_size * 2
        else poller.event_list_size)))
poll_lem_example = poll_lem table poller ready 4 (omega arith) (omega arith) (refl, tt)

poll-errno_zero_runs : poll table poller (some ready) 0 ≡ ok ([], poller)
poll-errno_zero_runs = poll-errno_zero table poller ready 0 refl
