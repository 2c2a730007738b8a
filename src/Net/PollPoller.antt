-- ===== src/Net/PollPoller.antt =====
-- Net/PollPoller models class PollPoller (src/net/src/PollPoller.cc) with its base class Poller. The
-- channels are objects on a heap, which the poller and their owners share: `objects` gives the one
-- at an address. The array of entries starts with the zero entries of the constructor, which no channel
-- has.
pub mod Inv
pub mod Update
pub mod Remove
pub mod Active
mod Tests
use dws.Base.{
  ℕ, zero, suc, ◌-◌, Bool, true, false, ◌&&◌, not, Option, none, some, List, [], ◌∷◌, ◌++◌, ◌==◌,
  if◌then◌else◌, length, take, get_elem?, set, replicate, Result, ok, err, out_of_range, assertion,
  assert, ◌>>=◌, ◌>>◌,
}
use dws.Base.Int.{ℤ, pos, negsuc}
use dws.Net.Channel.{Channel, Events, none_event, any_event, is_none_event}

-- `struct pollfd`; `negsuc n` is -n - 1.
pub record PollFd : Type 0 where
  pub fd : ℤ
  pub events : Events
  pub revents : Events

pub record PollPoller : Type 0 where
  pub objects : ℕ → Channel
  pub channels : ℕ → Option ℕ
  pub pollfds : List PollFd

abbrev pub init_event_list_size : ℕ
init_event_list_size = 16

-- `struct pollfd{}`
abbrev pub zero_entry : PollFd
zero_entry = record { fd = pos 0; events = none_event; revents = none_event }

-- The constructor of PollPoller, over the channels there are.
unfoldable pub init : (ℕ → Channel) → PollPoller
init objects = record {
  objects = objects;
  channels = λ fd. none;
  pollfds = replicate init_event_list_size zero_entry;
}

abbrev pub update_at {ℓ} : {A : Type ℓ} → (ℕ → A) → ℕ → A → ℕ → A
update_at f i a j = if i == j then a else f j

abbrev pub is_none {ℓ} : {A : Type ℓ} → Option A → Bool
is_none none = true
is_none (some a) = false

-- `it != channels_.end() && it->second == channel`
abbrev pub is_at : Option ℕ → ℕ → Bool
is_at none a = false
is_at (some b) a = a == b

-- `Poller::hasChannel`
pub has_channel : PollPoller → ℕ → Bool
has_channel p a = is_at (p.channels (p.objects a).fd) a

-- `channel->set_index(index)`
abbrev pub set_index : (ℕ → Channel) → ℕ → ℤ → ℕ → Channel
set_index objects a index = update_at objects a (record (objects a) { index = index })

-- The file descriptor that an entry stands for, ignored by poll(2) or not.
abbrev pub owner : ℤ → ℕ
owner (pos fd) = fd
owner (negsuc fd) = fd

-- `pfd.fd = fd`, or `-fd - 1` for a channel with no event.
abbrev pub entry : Channel → PollFd
entry c = record {
  fd = if is_none_event c then negsuc c.fd else pos c.fd;
  events = c.events;
  revents = none_event;
}

-- `updateChannel` of a channel that is new.
pub add_channel : PollPoller → ℕ → Result PollPoller
add_channel p a =
    let c = p.objects a in
    (assert (is_none (p.channels c.fd))
      >> ok (record {
        objects = set_index p.objects a (pos (length p.pollfds));
        channels = update_at p.channels c.fd (some a);
        pollfds =
            p.pollfds ++ record { fd = pos c.fd; events = c.events; revents = none_event } ∷ [];
      }))

-- `updateChannel` of a channel that has entry `i`.
pub change_channel : PollPoller → ℕ → ℕ → Result PollPoller
change_channel p a i =
    let c = p.objects a in
    (assert (is_at (p.channels c.fd) a) >> elim (get_elem? p.pollfds i) [
      | none ↦ err assertion
      | some pfd ↦
          assert (owner pfd.fd == c.fd) >> ok (record p { pollfds = set p.pollfds i (entry c) })
    ])

pub update_channel : PollPoller → ℕ → Result PollPoller
unfolding add_channel change_channel
update_channel p a = elim ((p.objects a).index) [
  | negsuc n ↦ add_channel p a
  | pos i ↦ change_channel p a i
]

-- `vector::pop_back`
abbrev pub pop_back : List PollFd → List PollFd
pop_back xs = take (length xs - 1) xs

-- Entry `i`, of a channel that is not the last, gives its place to the last entry.
pub move_last : PollPoller → ℕ → PollFd → Result PollPoller
move_last p i last = elim (p.channels (owner last.fd)) [
  | none ↦ err out_of_range
  | some b ↦ ok (record p {
    objects = set_index p.objects b (pos i);
    pollfds = pop_back (set p.pollfds i last);
  })
]

pub remove_entry : PollPoller → ℕ → ℕ → Result PollPoller
unfolding move_last
remove_entry p fd i =
    let erased : PollPoller = record p { channels = update_at p.channels fd none } in
    if i == length p.pollfds - 1
    then ok (record erased { pollfds = pop_back p.pollfds })
    else elim (get_elem? p.pollfds (length p.pollfds - 1)) [
      | none ↦ err out_of_range
      | some last ↦ move_last erased i last
    ]

abbrev pub is_ignored : ℕ → Option PollFd → Bool
is_ignored fd none = false
is_ignored fd (some pfd) =
    elim (pfd.fd) [ pos n ↦ false | negsuc n ↦ n == fd ] && not (any_event pfd.events)

pub remove_channel : PollPoller → ℕ → Result PollPoller
unfolding remove_entry
remove_channel p a =
    let c = p.objects a in
    (assert (is_at (p.channels c.fd) a) >> assert (is_none_event c) >> elim (c.index) [
      | negsuc n ↦ err assertion
      | pos i ↦ assert (is_ignored c.fd (get_elem? p.pollfds i)) >> remove_entry p c.fd i
    ])

-- `channels_.find(pfd->fd)`: no channel has a negative descriptor.
abbrev pub find : (ℕ → Option ℕ) → ℤ → Option ℕ
find channels (pos fd) = channels fd
find channels (negsuc n) = none

-- `fillActiveChannels`, on entries in which poll(2) has set `revents`: the addresses of the active
-- channels, and the objects.
pub fill_active_channels :
    (ℕ → Option ℕ) → List PollFd → ℕ → (ℕ → Channel) → Result (List ℕ × (ℕ → Channel))
fill_active_channels channels [] num_events objects = ok ([], objects)
fill_active_channels channels (pfd ∷ pfds) zero objects = ok ([], objects)
fill_active_channels channels (pfd ∷ pfds) (suc num_events) objects =
    let skip = fill_active_channels channels pfds (suc num_events) objects in
    let report = λ (a : ℕ).
      fill_active_channels channels pfds num_events
        (update_at objects a (record (objects a) { revents = pfd.revents }))
      >>= λ r. ok (a ∷ r.0, r.1) in
    if any_event pfd.revents
    then elim (find channels pfd.fd) [
      | none ↦ err assertion
      | some a ↦ assert ((objects a).fd == owner pfd.fd) >> report a
    ]
    else skip
