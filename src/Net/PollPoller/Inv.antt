-- ===== src/Net/PollPoller/Inv.antt =====
-- How the map of channels and the array of entries of PollPoller mirror each other.
use dws.Base.{
  ℕ, ◌≤◌, ◌≡◌, ◌≢◌, arith, length, replicate, get_elem?, lt_of_get_elem?, Option, none, some,
}
use dws.Base.Int.{pos}
use dws.Net.Channel.{Channel}
use dws.Net.PollPoller.{PollPoller, PollFd, owner, init, init_event_list_size, zero_entry}

-- The channel of a descriptor knows its entry, and the entry is the descriptor's.
pub record Slot (p : PollPoller) (fd a : ℕ) : Type 0 where
  pub same_fd : (p.objects a).fd ≡ fd
  pub place : ℕ
  pub pollfd : PollFd
  pub index : (p.objects a).index ≡ pos place
  pub found : get_elem? p.pollfds place ≡ some pollfd
  pub owned : owner pollfd.fd ≡ fd
  pub behind : init_event_list_size ≤ place

-- The descriptor of an entry that is not one of the constructor's has a channel, which knows this entry.
pub record Back (p : PollPoller) (i : ℕ) (pfd : PollFd) : Type 0 where
  pub address : ℕ
  pub registered : p.channels (owner pfd.fd) ≡ some address
  pub at : (p.objects address).index ≡ pos i

pub record Inv (p : PollPoller) : Type 0 where
  pub slot : (fd a : ℕ) → p.channels fd ≡ some a → Slot p fd a
  pub back :
      (i : ℕ) (pfd : PollFd)
      → init_event_list_size ≤ i
      → get_elem? p.pollfds i ≡ some pfd
      → Back p i pfd
  pub initial : init_event_list_size ≤ length p.pollfds

-- The invariant of a new poller.
pub init-Inv : (objects : ℕ → Channel) → Inv (init objects)
unfolding init
init-Inv objects = record {
  slot = λ fd a e. absurd (none_apart a e);
  back = λ i pfd h e. absurd (omega (arith, h, lt_of_get_elem? (replicate 16 zero_entry) i pfd e));
  initial = omega arith;
}
  where
    none_apart : (a : ℕ) → ◌≢◌ {A = Option ℕ} none (some a)
    none_apart a e = cc
