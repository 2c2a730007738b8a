-- ===== src/Net/EPollPoller/Poll.antt =====
-- `poll` of EPollPoller: which channels it reports.
use dws.Base.{
  lt→ltb, Returns, ℕ, ◌*◌, ◌≤◌, ◌<◌, ◌≡◌, refl, ap, arith, List, [], ◌∷◌, length, Option, none,
  some, true, if◌then◌else◌, ◌==◌, leb, ok, err, assertion,
}
use dws.Net.Channel.{Channel, Events}
use dws.Net.PollPoller.{update_at}
use dws.Net.EPollPoller.{Epoll, EPollPoller, Ready, fill, poll}

abbrev pub addresses : List Ready → List ℕ
addresses [] = []
addresses (r ∷ rs) = r.address ∷ addresses rs

-- The channels of the entries are registered under their descriptors.
abbrev pub Registered : (ℕ → Option ℕ) → (ℕ → Channel) → List Ready → Type 0
Registered channels objects [] = Unit {0}
Registered channels objects (r ∷ rs) =
    (channels (objects r.address).fd ≡ some r.address) × Registered channels objects rs

-- It does not matter for this what events an object has reported.
Registered-report :
    (channels : ℕ → Option ℕ) (objects : ℕ → Channel) (a : ℕ) (e : Events) (rs : List Ready)
    → Registered channels objects rs
    → Registered channels (update_at objects a (record (objects a) { revents = e })) rs
Registered-report channels objects a e [] h = tt
Registered-report channels objects a e (r ∷ rs) h =
    (ground (arith, h.0), Registered-report channels objects a e rs h.1)

fill_lem :
    (channels : ℕ → Option ℕ) (rs : List Ready) (objects : ℕ → Channel)
    → Registered channels objects rs
    → Returns (fill channels rs objects) (λ out. out.0 ≡ addresses rs)
unfolding fill
fill_lem channels [] objects h = (([], objects), refl, refl)
fill_lem channels (r ∷ rs) objects h =
    let (out, e, f) =
      fill_lem channels rs
        (update_at objects r.address (record (objects r.address) { revents = r.revents }))
        (Registered-report channels objects r.address r.revents rs h.1) in
    ((r.address ∷ out.0, out.1), ground (arith, h.0, e), ap (◌∷◌ r.address) f)

module _ (os : Epoll) (p : EPollPoller os) (ready : List Ready) (errno : ℕ) where
  -- Where an earlier call has left `errno` set, `poll` reports the channel of every entry that
  -- epoll_wait filled, and doubles the event list if it is full.
  pub poll_lem :
      0 < errno
      → length ready ≤ p.event_list_size
      → Registered p.channels p.objects ready
      → Returns (poll os p (some ready) errno) (λ out.
        (out.0 ≡ addresses ready)
        × (out.1.event_list_size ≡ (
            if length ready == p.event_list_size
            then p.event_list_size * 2
            else p.event_list_size)))
  unfolding poll
  poll_lem h k r =
      let (out, e, f) = fill_lem p.channels ready p.objects r in
      (
        (
          out.0,
          record p {
            objects = out.1;
            event_list_size =
                if length ready == p.event_list_size
                then p.event_list_size * 2
                else p.event_list_size;
          },
        ),
        rw (lt→ltb 0 errno h, k', e),
        (f, refl),
      )
    where
      k' : leb (length ready) p.event_list_size ≡ true
      k' = ground (arith, k)

  -- Where `errno` is 0, `poll` drops every event: it reports no channel, and the poller is as it
  -- was.
  pub poll-errno_zero : errno ≡ 0 → poll os p (some ready) errno ≡ ok ([], p)
  unfolding poll
  poll-errno_zero h = rw h

-- A failed epoll_wait, which sets `errno`, ends in a failed assertion, EINTR included.
pub poll-failed :
    (os : Epoll) (p : EPollPoller os) (errno : ℕ) → 0 < errno → poll os p none errno ≡ err assertion
unfolding poll
poll-failed os p errno h = rw (lt→ltb 0 errno h)
