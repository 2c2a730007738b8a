-- ===== src/Net/Channel.antt =====
-- Net/Channel models class Channel: src/net/include/Channel.h and src/net/src/Channel.cc. An event
-- mask is a record of its bits. What the owner does with the poller is in the poller's module.
pub mod Dispatch
mod Tests
use dws.Base.{ℕ, zero, suc, List, [], ◌∷◌, Bool, true, false, ◌&&◌, ◌||◌, not, if◌then◌else◌}
use dws.Base.Int.{ℤ, negsuc}

-- The bits of poll(2).
pub record Events : Type 0 where
  pub pollin : Bool
  pub pollpri : Bool
  pub pollout : Bool
  pub pollerr : Bool
  pub pollhup : Bool
  pub pollnval : Bool
  pub pollrdhup : Bool

-- `kNoneEvent`
abbrev pub none_event : Events
none_event = record {
  pollin = false;
  pollpri = false;
  pollout = false;
  pollerr = false;
  pollhup = false;
  pollnval = false;
  pollrdhup = false;
}

-- Whether a mask is not 0.
abbrev pub any_event : Events → Bool
any_event e =
    e.pollin || e.pollpri || e.pollout || e.pollerr || e.pollhup || e.pollnval || e.pollrdhup

pub record Channel : Type 0 where
  pub fd : ℕ
  pub events : Events
  pub revents : Events
  pub index : ℤ
  pub tied : Bool
  pub event_handling : Bool
  pub added_to_loop : Bool

-- The constructor.
unfoldable pub init : ℕ → Channel
init fd = record {
  fd = fd;
  events = none_event;
  revents = none_event;
  index = negsuc 0;
  tied = false;
  event_handling = false;
  added_to_loop = false;
}

abbrev pub is_none_event : Channel → Bool
is_none_event c = not (any_event c.events)

abbrev pub is_writing : Channel → Bool
is_writing c = c.events.pollout

abbrev pub is_reading : Channel → Bool
is_reading c = c.events.pollin || c.events.pollpri

-- `kReadEvent` is POLLIN | POLLPRI, and `kWriteEvent` is POLLOUT.
unfoldable pub enable_reading : Channel → Channel
enable_reading c = record c {
  events = record (c.events) { pollin = true; pollpri = true };
  added_to_loop = true;
}

unfoldable pub disable_reading : Channel → Channel
disable_reading c = record c {
  events = record (c.events) { pollin = false; pollpri = false };
  added_to_loop = true;
}

unfoldable pub enable_writing : Channel → Channel
enable_writing c = record c { events = record (c.events) { pollout = true }; added_to_loop = true }

unfoldable pub disable_writing : Channel → Channel
disable_writing c = record c {
  events = record (c.events) { pollout = false };
  added_to_loop = true;
}

unfoldable pub disable_all : Channel → Channel
disable_all c = record c { events = none_event; added_to_loop = true }

-- The callbacks that are set.
pub record Callbacks : Type 0 where
  pub close_callback : Bool
  pub error_callback : Bool
  pub read_callback : Bool
  pub write_callback : Bool

pub data Call : Type 0 where
  close error read write : Call

abbrev call_if : Bool → Call → List Call → List Call
call_if true c rest = c ∷ rest
call_if false c rest = rest

-- The callbacks that `handleEventWithGuard` calls, in order.
pub handle_event_with_guard : Callbacks → Events → List Call
handle_event_with_guard k r = call_if (r.pollhup && not r.pollin && k.close_callback) close (
    call_if ((r.pollerr || r.pollnval) && k.error_callback) error (
      call_if ((r.pollin || r.pollpri || r.pollrdhup) && k.read_callback) read
        (call_if (r.pollout && k.write_callback) write [])))

-- `handleEvent`: `alive` says whether the tied object can still be locked.
pub handle_event : Callbacks → Bool → Channel → List Call
unfolding handle_event_with_guard
handle_event k alive c =
    if c.tied
    then (if alive then handle_event_with_guard k c.revents else [])
    else handle_event_with_guard k c.revents
