-- ===== src/Net/Channel/Dispatch.antt =====
-- Which callbacks `handleEvent` calls, in which order.
use dws.Base.{
  ℕ, ◌+◌, ◌≤◌, ◌≡◌, refl, ◌∙◌, arith, List, [], ◌∷◌, Bool, true, false, ◌&&◌, ◌||◌, not, ◌==◌, inl,
  inr, ◌⊎◌,
}
use dws.Net.Channel.{
  Channel, Callbacks, Call, close, error, read, write, handle_event, Events, call_if,
}

-- The place of a callback in the order of the tests.
abbrev pub rank : Call → ℕ
rank close = 0
rank error = 1
rank read = 2
rank write = 3

abbrev pub IsAscending : ℕ → List Call → Type 0
IsAscending k [] = Unit {0}
IsAscending k (c ∷ cs) = (k ≤ rank c) × IsAscending (rank c + 1) cs

-- Whether the poller's report asks for a callback that is set.
abbrev pub wanted : Callbacks → Events → Call → Bool
wanted k r close = r.pollhup && not r.pollin && k.close_callback
wanted k r error = (r.pollerr || r.pollnval) && k.error_callback
wanted k r read = (r.pollin || r.pollpri || r.pollrdhup) && k.read_callback
wanted k r write = r.pollout && k.write_callback

pub contains : Call → List Call → Bool
contains c [] = false
contains c (d ∷ ds) = rank c == rank d || contains c ds

-- The callbacks whose tests passed.
abbrev passed : Bool → Bool → Bool → Bool → List Call
passed a b c d = call_if a close (call_if b error (call_if c read (call_if d write [])))

abbrev test_of : Bool → Bool → Bool → Bool → Call → Bool
test_of a b c d close = a
test_of a b c d error = b
test_of a b c d read = c
test_of a b c d write = d

in_order : (a b c d : Bool) → IsAscending 0 (passed a b c d)
in_order a b c d = ground arith

exact : (a b c d : Bool) (call : Call) → contains call (passed a b c d) ≡ test_of a b c d call
unfolding contains
exact a b c d close = ground arith
exact a b c d error = ground arith
exact a b c d read = ground arith
exact a b c d write = ground arith

awake :
    (k : Callbacks) (alive : Bool) (c : Channel)
    → (c.tied ≡ false) ⊎ (alive ≡ true)
    → handle_event k alive c
      ≡ passed
          (wanted k c.revents close)
          (wanted k c.revents error)
          (wanted k c.revents read)
          (wanted k c.revents write)
unfolding handle_event
awake k alive c (inl e) = rw e
awake k true c (inr e) = ground arith
awake k false c (inr e) = cc

pick :
    (k : Callbacks) (r : Events) (call : Call)
    → test_of (wanted k r close) (wanted k r error) (wanted k r read) (wanted k r write) call
      ≡ wanted k r call
pick k r close = refl
pick k r error = refl
pick k r read = refl
pick k r write = refl

-- A channel whose owner is alive, or that is tied to none, calls exactly the callbacks that are
-- wanted, each at most once and in the order close, error, read, write.
pub handle_event_lem :
    (k : Callbacks) (alive : Bool) (c : Channel)
    → (c.tied ≡ false) ⊎ (alive ≡ true)
    → IsAscending 0 (handle_event k alive c)
      × ((call : Call) → contains call (handle_event k alive c) ≡ wanted k c.revents call)
handle_event_lem k alive c h =
    rw (awake k alive c h) (in_order _ _ _ _, λ call. exact _ _ _ _ call ∙ pick k c.revents call)

-- A channel that is tied to an owner that is gone calls nothing.
pub handle_event-nil : (k : Callbacks) (c : Channel) → c.tied ≡ true → handle_event k false c ≡ []
unfolding handle_event
handle_event-nil k c h = rw h
