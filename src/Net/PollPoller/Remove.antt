-- ===== src/Net/PollPoller/Remove.antt =====
-- `removeChannel` of PollPoller: the last entry takes the place of the one that goes.
use native.Mathlib.Decide.{ℕ_discrete}
use dws.Base.{
  Returns, ℕ, ◌-◌, ◌≤◌, ◌<◌, ◌≡◌, ◌≢◌, ap, sym, ◌∙◌, arith, List, length, take, get_elem?, Option,
  none, some, true, false, ◌==◌, length-take, Bool-cases, inl, inr, ok,
}
use dws.Base.{
  ==_iff, set, lt_of_get_elem?, get_elem?-some, get_elem?-take, get_elem?-set_self,
  get_elem?-set_ne, length-set,
}
use dws.Base.Int.{pos}
use dws.Net.Channel.{is_none_event}
use dws.Net.PollPoller.{
  PollPoller, PollFd, owner, entry, set_index, update_at, pop_back, move_last, remove_entry,
  remove_channel, is_ignored, init_event_list_size,
}
use dws.Net.PollPoller.Inv.{Slot, Back, Inv}

module _ (p : PollPoller) (a place : ℕ) (v : Inv p) (known : p.channels (p.objects a).fd ≡ some a)
    (index : (p.objects a).index ≡ pos place)
    (found : get_elem? p.pollfds place ≡ some (entry (p.objects a))) where
  abbrev fd : ℕ
  fd = (p.objects a).fd

  abbrev last : ℕ
  last = length p.pollfds - 1

  abbrev erased : ℕ → Option ℕ
  erased = update_at p.channels fd none

  -- An entry at another place belongs to another descriptor.
  other_owner :
      (i : ℕ) (pfd : PollFd)
      → init_event_list_size ≤ i
      → get_elem? p.pollfds i ≡ some pfd
      → i ≢ place
      → (fd == owner pfd.fd) ≡ false
  other_owner i pfd behind e ne = elim (Bool-cases (fd == owner pfd.fd)) [
    | inl same ↦
        let b = v.back i pfd behind e in
        let k : fd ≡ owner pfd.fd = (==_iff fd (owner pfd.fd)).0 same in
        let f : some b.address ≡ some a = sym b.registered ∙ ap p.channels (sym k) ∙ known in
        let g : b.address ≡ a = cc in
        let h : pos i ≡ pos place = sym b.at ∙ ap (λ c. (p.objects c).index) g ∙ index in
        absurd (ne (cc))
    | inr other ↦ other
  ]

  -- Another descriptor's channel has another place.
  other_place : (d b : ℕ) (s : Slot p d b) → (fd == d) ≡ false → s.place ≢ place
  other_place d b s ne k =
      let f : some s.pollfd ≡ some (entry (p.objects a)) =
        sym s.found ∙ ap (get_elem? p.pollfds) k ∙ found in
      let g : s.pollfd ≡ entry (p.objects a) = cc in
      let o : owner (entry (p.objects a)).fd ≡ fd = ground arith in
      let h : d ≡ fd = sym s.owned ∙ ap (λ (x : PollFd). owner x.fd) g ∙ o in ground (arith, ne, h)

  in_range : (i : ℕ) (pfd : PollFd) → get_elem? p.pollfds i ≡ some pfd → i < length p.pollfds
  in_range i pfd e = lt_of_get_elem? p.pollfds i pfd e

  place_behind : init_event_list_size ≤ place
  place_behind =
      let s = v.slot fd a known in
      let k : pos s.place ≡ pos place = sym s.index ∙ index in
      let same : s.place ≡ place = cc in omega (arith, same, s.behind)

  last_behind : init_event_list_size ≤ last
  last_behind = omega (arith, place_behind, in_range place (entry (p.objects a)) found)

  -- The channel had the last entry.
  abbrev popped : PollPoller
  popped = record { objects = p.objects; channels = erased; pollfds = pop_back p.pollfds }

  popped-slot : place ≡ last → (d b : ℕ) → erased d ≡ some b → Slot popped d b
  popped-slot k d b e =
      let ne : (fd == d) ≡ false = ground (arith, e) in
      let f : p.channels d ≡ some b = ground (arith, e, ne) in
      let s = v.slot d b f in
      let o = other_place d b s ne in
      record {
        same_fd = s.same_fd;
        place = s.place;
        pollfd = s.pollfd;
        index = s.index;
        found =
            get_elem?-take last p.pollfds s.place
              (omega (arith, in_range s.place s.pollfd s.found, o))
            ∙ s.found;
        owned = s.owned;
        behind = s.behind;
      }

  below_last :
      (xs : List PollFd) (i : ℕ) (pfd : PollFd)
      → get_elem? (pop_back xs) i ≡ some pfd
      → i < length xs - 1
  below_last xs i pfd e =
      omega (arith, lt_of_get_elem? (pop_back xs) i pfd e, length-take (length xs - 1) xs)

  popped-back :
      place ≡ last
      → (i : ℕ) (pfd : PollFd) → init_event_list_size ≤ i
      → get_elem? (pop_back p.pollfds) i ≡ some pfd
      → Back popped i pfd
  popped-back k i pfd behind e =
      let h = below_last p.pollfds i pfd e in
      let f : get_elem? p.pollfds i ≡ some pfd = sym (get_elem?-take last p.pollfds i h) ∙ e in
      let b = v.back i pfd behind f in
      record {
        address = b.address;
        registered = ground (arith, b.registered, other_owner i pfd behind f (omega arith));
        at = b.at;
      }

  -- The channel had an entry before the last, `end`, which is that of the channel at `b`.
  module _ (end : PollFd) (end_found : get_elem? p.pollfds last ≡ some end)
      (ne : place ≢ last) where
    mover : Back p last end
    mover = v.back last end last_behind end_found

    abbrev moved : PollPoller
    moved = record {
      objects = set_index p.objects mover.address (pos place);
      channels = erased;
      pollfds = pop_back (set p.pollfds place end);
    }

    end_other : (fd == owner end.fd) ≡ false
    end_other = other_owner last end last_behind end_found (λ k. ne (sym k))

    -- Two entries at different places have different channels.
    not_mover : (d b : ℕ) (s : Slot p d b) → s.place ≢ last → (mover.address == b) ≡ false
    not_mover d b s k = elim (Bool-cases (mover.address == b)) [
      | inl same ↦
          let g : mover.address ≡ b = (==_iff mover.address b).0 same in
          let h : pos s.place ≡ pos last =
            sym s.index ∙ ap (λ c. (p.objects c).index) (sym g) ∙ mover.at in
          absurd (k (cc))
      | inr other ↦ other
    ]

    end_at : get_elem? (pop_back (set p.pollfds place end)) place ≡ some end
    end_at =
        ap (λ n. get_elem? (take (n - 1) (set p.pollfds place end)) place)
          (length-set p.pollfds place end)
        ∙ get_elem?-take last (set p.pollfds place end) place
            (omega (arith, in_range place (entry (p.objects a)) found, ne))
        ∙ get_elem?-set_self p.pollfds place end (in_range place (entry (p.objects a)) found)

    kept_at :
        (i : ℕ)
        → i ≢ place
        → i < last
        → get_elem? (pop_back (set p.pollfds place end)) i ≡ get_elem? p.pollfds i
    kept_at i k h =
        ap (λ n. get_elem? (take (n - 1) (set p.pollfds place end)) i)
          (length-set p.pollfds place end)
        ∙ get_elem?-take last (set p.pollfds place end) i h
        ∙ get_elem?-set_ne p.pollfds end (λ e. k (sym e))

    moved-slot : (d b : ℕ) → erased d ≡ some b → Slot moved d b
    moved-slot d b e =
        let od : (fd == d) ≡ false = ground (arith, e) in
        let f : p.channels d ≡ some b = ground (arith, e, od) in
        let s = v.slot d b f in
        let o = other_place d b s od in
        elim (ℕ_discrete s.place last) [
          | yes k ↦
              let g : some s.pollfd ≡ some end =
                sym s.found ∙ ap (get_elem? p.pollfds) k ∙ end_found in
              let h : s.pollfd ≡ end = cc in
              let w : owner end.fd ≡ d = ap (λ (x : PollFd). owner x.fd) (sym h) ∙ s.owned in
              let same : some mover.address ≡ some b = sym mover.registered ∙ ap p.channels w ∙ f in
              let m : mover.address ≡ b = cc in
              record {
                same_fd = ground (arith, m, s.same_fd);
                place = place;
                pollfd = end;
                index = ground (arith, m);
                found = end_at;
                owned = w;
                behind = place_behind;
              }
          | no k ↦ record {
            same_fd = ground (arith, not_mover d b s k, s.same_fd);
            place = s.place;
            pollfd = s.pollfd;
            index = ground (arith, not_mover d b s k, s.index);
            found =
                kept_at s.place o (omega (arith, in_range s.place s.pollfd s.found, k)) ∙ s.found;
            owned = s.owned;
            behind = s.behind;
          }
        ]

    moved-back :
        (i : ℕ) (pfd : PollFd)
        → init_event_list_size ≤ i
        → get_elem? (pop_back (set p.pollfds place end)) i ≡ some pfd
        → Back moved i pfd
    moved-back i pfd behind e =
        let h : i < last =
          omega
            (arith, below_last (set p.pollfds place end) i pfd e, length-set p.pollfds place end) in
        elim (ℕ_discrete i place) [
          | yes k ↦
              let f : some pfd ≡ some end =
                sym e ∙ ap (get_elem? (pop_back (set p.pollfds place end))) k ∙ end_at in
              let g : pfd ≡ end = cc in
              record {
                address = mover.address;
                registered =
                    ap (λ (x : PollFd). erased (owner x.fd)) g
                    ∙ ground (arith, end_other, mover.registered);
                at = ground (arith, k);
              }
          | no k ↦
              let f : get_elem? p.pollfds i ≡ some pfd = sym (kept_at i k h) ∙ e in
              let b = v.back i pfd behind f in
              record {
                address = b.address;
                registered = ground (arith, b.registered, other_owner i pfd behind f k);
                at = ground (arith, apart b.address i b.at h, b.at);
              }
        ]
      where
        apart : (b j : ℕ) → (p.objects b).index ≡ pos j → j < last → (mover.address == b) ≡ false
        apart b j at h = elim (Bool-cases (mover.address == b)) [
          | inl same ↦
              let g : mover.address ≡ b = (==_iff mover.address b).0 same in
              let w : pos j ≡ pos last =
                sym at ∙ ap (λ c. (p.objects c).index) (sym g) ∙ mover.at in
              let z : j ≡ last = cc in absurd (omega arith)
          | inr other ↦ other
        ]

    remove_moved : remove_entry p fd place ≡ ok moved
    unfolding remove_entry move_last
    remove_moved = ground (arith, end_found, end_other, mover.registered, ne)

  -- What `removeChannel` promises: the invariant holds on, and the descriptor is free again.
  abbrev Removed : PollPoller → Type 0
  Removed q = Inv q × (q.channels fd ≡ none)

  free : erased fd ≡ none
  free = ground arith

  remove_entry_lem : Returns (remove_entry p fd place) Removed
  unfolding remove_entry
  remove_entry_lem = elim (ℕ_discrete place last) [
    | yes k ↦ (
      popped,
      ground arith,
      (
        record {
          slot = popped-slot k;
          back = popped-back k;
          initial = omega (arith, last_behind, length-take last p.pollfds);
        },
        free,
      ),
    )
    | no k ↦
        let (end, e) =
          get_elem?-some p.pollfds last
            (omega (arith, in_range place (entry (p.objects a)) found)) in
        (
          moved end e k,
          remove_moved end e k,
          (
            record {
              slot = moved-slot end e k;
              back = moved-back end e k;
              initial = omega (
                arith,
                last_behind,
                length-set p.pollfds place end,
                length-take (length (set p.pollfds place end) - 1) (set p.pollfds place end),
              );
            },
            free,
          ),
        )
  ]

  -- `removeChannel` of a registered channel that waits for no event, and whose entry shows that,
  -- returns, keeps the invariant, and frees the descriptor.
  pub remove_channel-Inv :
      is_none_event (p.objects a) ≡ true
      → Returns (remove_channel p a) (λ q. Inv q × (q.channels (p.objects a).fd ≡ none))
  unfolding remove_channel
  remove_channel-Inv idle =
      let (q, e, r) = remove_entry_lem in
      (q, rw (known, idle, index, found) (ground (arith, ignored, e)), r)
    where
      ignored : is_ignored fd (some (entry (p.objects a))) ≡ true
      ignored = ground (arith, idle)
