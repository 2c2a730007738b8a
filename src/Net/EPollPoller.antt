-- ===== src/Net/EPollPoller.antt =====
-- Net/EPollPoller models class EPollPoller (src/net/include/EPollPoller.h, src/net/src/EPollPoller.cc)
-- over the heap of channels that Net/PollPoller uses. epoll_ctl(2) is a parameter, with its manual
-- page's outcomes as laws.
pub mod Register
pub mod Poll
mod Tests
use dws.Base.{
  ℕ, zero, suc, ◌*◌, ◌≡◌, List, [], ◌∷◌, length, Option, none, some, Bool, true, false, ◌||◌,
  if◌then◌else◌, ◌==◌, ltb, leb, Result, ok, err, ◌>>=◌, ◌>>◌, assert, fatal, assertion,
}
use dws.Base.Int.{ℤ, pos, negsuc}
use dws.Net.Channel.{Channel, Events, is_none_event}
use dws.Net.PollPoller.{update_at, is_none, is_at, set_index}

pub data Operation : Type 0 where
  add del modify : Operation

-- The interest list of an epoll instance; `ctl` is none where the call fails.
pub record Epoll : Type 1 where
  pub Kernel : Type 0
  pub interest : Kernel → ℕ → Option Events
  pub ctl : Operation → ℕ → Events → Kernel → Option Kernel
  -- EPOLL_CTL_ADD of a descriptor that is not in the list.
  pub ctl_add :
      (k : Kernel) (fd : ℕ) (e : Events)
      → interest k fd ≡ none
      → (k' : Kernel) × (ctl add fd e k ≡ some k') × (interest k' fd ≡ some e)
  -- EPOLL_CTL_MOD and EPOLL_CTL_DEL of one that is.
  pub ctl_mod :
      (k : Kernel) (fd : ℕ) (e d : Events)
      → interest k fd ≡ some d
      → (k' : Kernel) × (ctl modify fd e k ≡ some k') × (interest k' fd ≡ some e)
  pub ctl_del :
      (k : Kernel) (fd : ℕ) (e d : Events)
      → interest k fd ≡ some d
      → (k' : Kernel) × (ctl del fd e k ≡ some k') × (interest k' fd ≡ none)

-- `kNew`, `kAdded` and `kDeleted`
abbrev pub new : ℤ
new = negsuc 0

abbrev pub added : ℤ
added = pos 1

abbrev pub deleted : ℤ
deleted = pos 2

abbrev pub same : ℤ → ℤ → Bool
same (pos a) (pos b) = a == b
same (pos a) (negsuc b) = false
same (negsuc a) (pos b) = false
same (negsuc a) (negsuc b) = a == b

-- An entry of `events_` that epoll_wait(2) has filled.
pub record Ready : Type 0 where
  pub address : ℕ
  pub revents : Events

-- `fillActiveChannels`, after its first assertion.
pub fill : (ℕ → Option ℕ) → List Ready → (ℕ → Channel) → Result (List ℕ × (ℕ → Channel))
fill channels [] objects = ok ([], objects)
fill channels (r ∷ rs) objects =
    assert (is_at (channels (objects r.address).fd) r.address)
    >> (fill channels rs
          (update_at objects r.address (record (objects r.address) { revents = r.revents }))
        >>= λ out. ok (r.address ∷ out.0, out.1))

module _ (os : Epoll) where
  open os use {Kernel, ctl}

  pub record EPollPoller : Type 0 where
    pub objects : ℕ → Channel
    pub channels : ℕ → Option ℕ
    pub kernel : Kernel
    pub event_list_size : ℕ

  -- `update`: only a failed EPOLL_CTL_DEL is survived.
  pub update : Operation → EPollPoller → ℕ → Result EPollPoller
  update op p a =
      let c = p.objects a in
      elim (ctl op c.fd c.events p.kernel) [
        | some k ↦ ok (record p { kernel = k })
        | none ↦ elim op [ del ↦ ok p | _ ↦ err fatal ]
      ]

  -- `updateChannel` of a channel whose index is `kNew` or `kDeleted`.
  pub register_channel : EPollPoller → ℕ → Result EPollPoller
  unfolding update
  register_channel p a =
      let c = p.objects a in
      if same c.index new
      then (assert (is_none (p.channels c.fd))
          >> update add
              (record p {
                channels = update_at p.channels c.fd (some a);
                objects = set_index p.objects a c.index;
              })
              a)
      else (assert (is_at (p.channels c.fd) a)
          >> update add (record p { objects = set_index p.objects a c.index }) a)

  -- `updateChannel` of any other channel.
  pub modify_channel : EPollPoller → ℕ → Result EPollPoller
  unfolding update
  modify_channel p a =
      let c = p.objects a in
      (assert (is_at (p.channels c.fd) a)
        >> assert (same c.index added)
        >> (if is_none_event c
            then (update del p a >>= λ q. ok (record q { objects = set_index q.objects a deleted }))
            else update modify p a))

  pub update_channel : EPollPoller → ℕ → Result EPollPoller
  unfolding register_channel modify_channel
  update_channel p a =
      let i = (p.objects a).index in
      if same i new || same i deleted then register_channel p a else modify_channel p a

  pub remove_channel : EPollPoller → ℕ → Result EPollPoller
  unfolding update
  remove_channel p a =
      let c = p.objects a in
      (assert (is_at (p.channels c.fd) a)
        >> assert (is_none_event c)
        >> assert (same c.index added || same c.index deleted)
        >> let erased : EPollPoller = record p { channels = update_at p.channels c.fd none } in
          ((if same c.index added then update del erased a else ok erased) >>= λ q.
          ok (record q { objects = set_index q.objects a new })))

  -- What epoll_wait(2) returns: -1, or the entries that it filled. `errno` is read after the call,
  -- which leaves it alone where it succeeds.
  pub poll : EPollPoller → Option (List Ready) → ℕ → Result (List ℕ × EPollPoller)
  unfolding fill
  poll p none errno = if ltb 0 errno then err assertion else ok ([], p)
  poll p (some ready) errno =
      if ltb 0 errno
      then (assert (leb (length ready) p.event_list_size)
          >> (fill p.channels ready p.objects >>= λ out. ok (
            out.0,
            record p {
              objects = out.1;
              event_list_size =
                  if length ready == p.event_list_size
                  then p.event_list_size * 2
                  else p.event_list_size;
            },
          )))
      else ok ([], p)
