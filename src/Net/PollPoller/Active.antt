-- ===== src/Net/PollPoller/Active.antt =====
-- `fillActiveChannels` of PollPoller.
use dws.Base.{
  Returns, ℕ, zero, suc, ◌≡◌, refl, sym, ◌∙◌, arith, List, [], ◌∷◌, Option, some, true, false,
  if◌then◌else◌, map, Bool-cases, inl, inr, ok,
}
use dws.Base.Int.{ℤ}
use dws.Net.Channel.{Channel, Events, any_event}
use dws.Net.PollPoller.{PollFd, owner, update_at, find, fill_active_channels}

-- How many entries have events.
pub active : List PollFd → ℕ
active [] = 0
active (pfd ∷ pfds) = if any_event pfd.revents then suc (active pfds) else active pfds

-- The addresses of the channels whose entries have events, in the order of the entries.
pub reported : (ℕ → Option ℕ) → List PollFd → List (Option ℕ)
reported channels [] = []
reported channels (pfd ∷ pfds) =
    if any_event pfd.revents
    then find channels pfd.fd ∷ reported channels pfds
    else reported channels pfds

-- Each entry that has events is that of a registered channel, and is not ignored.
abbrev pub Known : (ℕ → Option ℕ) → (ℕ → Channel) → List PollFd → Type 0
Known channels objects [] = Unit {0}
Known channels objects (pfd ∷ pfds) =
    (any_event pfd.revents ≡ true
      → (a : ℕ) × (find channels pfd.fd ≡ some a) × ((objects a).fd ≡ owner pfd.fd))
    × Known channels objects pfds

same_fds :
    (channels : ℕ → Option ℕ) (objects : ℕ → Channel) (a : ℕ) (r : Events) (pfds : List PollFd)
    → Known channels objects pfds
    → Known channels (update_at objects a (record (objects a) { revents = r })) pfds
same_fds channels objects a r [] k = tt
same_fds channels objects a r (pfd ∷ pfds) k = (
  (λ h. let (b, e, f) = k.0 h in (b, e, still b pfd.fd f)),
  same_fds channels objects a r pfds k.1,
)
  where
    still :
        (b : ℕ) (d : ℤ)
        → (objects b).fd ≡ owner d
        → (update_at objects a (record (objects a) { revents = r }) b).fd ≡ owner d
    still b d f = ground (arith, f)

fill_zero :
    (channels : ℕ → Option ℕ) (pfds : List PollFd) (objects : ℕ → Channel)
    → fill_active_channels channels pfds 0 objects ≡ ok ([], objects)
unfolding fill_active_channels
fill_zero channels [] objects = refl
fill_zero channels (pfd ∷ pfds) objects = refl

-- An entry with no event is passed over.
fill_skip :
    (channels : ℕ → Option ℕ) (pfd : PollFd) (pfds : List PollFd) (n : ℕ) (objects : ℕ → Channel)
    → any_event pfd.revents ≡ false
    → fill_active_channels channels (pfd ∷ pfds) n objects
      ≡ fill_active_channels channels pfds n objects
unfolding fill_active_channels
fill_skip channels pfd pfds zero objects h = sym (fill_zero channels pfds objects)
fill_skip channels pfd pfds (suc n) objects h = rw h

-- Where each entry with events is that of a registered channel, and none of them is one of the
-- constructor's that no channel has: with the count that poll(2) returned, every active channel is
-- reported, in the order of the entries, and no other.
pub fill_active_channels_lem :
    (channels : ℕ → Option ℕ) (pfds : List PollFd) (objects : ℕ → Channel)
    → Known channels objects pfds
    → Returns
        (fill_active_channels channels pfds (active pfds) objects)
        (λ r. map some r.0 ≡ reported channels pfds)
unfolding fill_active_channels active reported
fill_active_channels_lem channels [] objects k = (([], objects), refl, refl)
fill_active_channels_lem channels (pfd ∷ pfds) objects k =
    elim (Bool-cases (any_event pfd.revents)) [
      | inl on ↦
          let (a, e, f) = k.0 on in
          let objects' : ℕ → Channel =
            update_at objects a (record (objects a) { revents = pfd.revents }) in
          let (r, g, h) =
            fill_active_channels_lem channels pfds objects'
              (same_fds channels objects a pfd.revents pfds k.1) in
          ((a ∷ r.0, r.1), rw (on, e) (ground (arith, f, g)), rw on (ground (arith, e, h)))
      | inr off ↦
          let (r, g, h) = fill_active_channels_lem channels pfds objects k.1 in
          (r, rw off (fill_skip channels pfd pfds (active pfds) objects off ∙ g), rw off h)
    ]
