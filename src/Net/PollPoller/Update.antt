-- ===== src/Net/PollPoller/Update.antt =====
-- `updateChannel` of PollPoller.
use dws.Base.{
  Returns, ℕ, ◌≤◌, ◌<◌, ◌≡◌, ◌≢◌, ap, sym, ◌∙◌, arith, [], ◌∷◌, ◌++◌, length, get_elem?, none, some,
  true, false, ◌==◌, length-append, ltb, Bool-cases, inl, inr, ok,
}
use dws.Base.{
  ==_iff, ltb→lt, set, lt_of_get_elem?, get_elem?-append_last, get_elem?-append_left,
  get_elem?-set_self, get_elem?-set_ne, length-set,
}
use dws.Base.Int.{pos, negsuc}
use dws.Net.Channel.{Channel, none_event}
use dws.Net.PollPoller.{
  PollPoller, PollFd, owner, entry, set_index, update_at, add_channel, change_channel,
  update_channel, has_channel, init_event_list_size,
}
use native.Mathlib.Decide.{ℕ_discrete}
use dws.Net.PollPoller.Inv.{Slot, Back, Inv}

pos≢negsuc : (i n : ℕ) → pos i ≢ negsuc n
pos≢negsuc i n e = cc

module _ (p : PollPoller) (a : ℕ) where
  abbrev chan : Channel
  chan = p.objects a

  -- The poller with an entry for the channel behind the others.
  abbrev added : PollPoller
  added = record {
    objects = set_index p.objects a (pos (length p.pollfds));
    channels = update_at p.channels chan.fd (some a);
    pollfds =
        p.pollfds ++ record { fd = pos chan.fd; events = chan.events; revents = none_event } ∷ [];
  }

  module _ (n : ℕ) (v : Inv p) (new : chan.index ≡ negsuc n) where
    -- No descriptor is registered for a channel that is new.
    not_new : (fd b : ℕ) → p.channels fd ≡ some b → (a == b) ≡ false
    not_new fd b e = elim (Bool-cases (a == b)) [
      | inl same ↦
          let s = v.slot fd b e in
          let k : a ≡ b = (==_iff a b).0 same in
          absurd (pos≢negsuc s.place n (sym s.index ∙ ap (λ j. (p.objects j).index) (sym k) ∙ new))
      | inr other ↦ other
    ]

    added-slot : (fd b : ℕ) → added.channels fd ≡ some b → Slot added fd b
    added-slot fd b e = elim (Bool-cases (chan.fd == fd)) [
      | inl own ↦
          let k : a ≡ b = ground (arith, e, own) in
          record {
            same_fd = ground (arith, k, own);
            place = length p.pollfds;
            pollfd = record { fd = pos chan.fd; events = chan.events; revents = none_event };
            index = ground (arith, k);
            found = get_elem?-append_last p.pollfds _;
            owned = ground (arith, own);
            behind = v.initial;
          }
      | inr other ↦
          let f : p.channels fd ≡ some b = ground (arith, e, other) in
          let s = v.slot fd b f in
          record {
            same_fd = ground (arith, not_new fd b f, s.same_fd);
            place = s.place;
            pollfd = s.pollfd;
            index = ground (arith, not_new fd b f, s.index);
            found =
                get_elem?-append_left p.pollfds _ s.place
                  (lt_of_get_elem? p.pollfds s.place s.pollfd s.found)
                ∙ s.found;
            owned = s.owned;
            behind = s.behind;
          }
    ]

    module _ (free : p.channels chan.fd ≡ none) where
      added-back-old :
          (i : ℕ) (pfd : PollFd)
          → init_event_list_size ≤ i
          → get_elem? p.pollfds i ≡ some pfd
          → Back added i pfd
      added-back-old i pfd h e =
          let b = v.back i pfd h e in
          record {
            address = b.address;
            registered = ground (arith, b.registered, free);
            at = ground (arith, not_new (owner pfd.fd) b.address b.registered, b.at);
          }

      added-back :
          (i : ℕ) (pfd : PollFd)
          → init_event_list_size ≤ i
          → get_elem? added.pollfds i ≡ some pfd
          → Back added i pfd
      added-back i pfd h e = elim (Bool-cases (ltb i (length p.pollfds))) [
        | inl old ↦
            added-back-old i pfd h
              (sym (get_elem?-append_left p.pollfds _ i (ltb→lt i (length p.pollfds) old)) ∙ e)
        | inr last ↦
            let k : i ≡ length p.pollfds = ground (
              arith,
              lt_of_get_elem? added.pollfds i pfd e,
              length-append p.pollfds
                  (record { fd = pos chan.fd; events = chan.events; revents = none_event } ∷ []),
            ) in
            let f : pfd ≡ record { fd = pos chan.fd; events = chan.events; revents = none_event } =
              ground (
                arith,
                e,
                k,
                get_elem?-append_last p.pollfds
                    (record { fd = pos chan.fd; events = chan.events; revents = none_event }),
              ) in
            record { address = a; registered = ground (arith, f); at = ground (arith, k) }
      ]

      added-Inv : Inv added
      added-Inv = record {
        slot = added-slot;
        back = added-back;
        initial = omega (
          arith,
          v.initial,
          length-append p.pollfds
              (record { fd = pos chan.fd; events = chan.events; revents = none_event } ∷ []),
        );
      }

  abbrev changed : ℕ → PollPoller
  changed i = record p { pollfds = set p.pollfds i (entry chan) }

  owner-entry : owner (entry chan).fd ≡ chan.fd
  owner-entry = ground arith

  module _ (v : Inv p) (known : p.channels chan.fd ≡ some a) where
    own : Slot p chan.fd a
    own = v.slot chan.fd a known

    -- Only this channel has its entry.
    same_place : (fd b : ℕ) (s : Slot p fd b) → s.place ≡ own.place → fd ≡ chan.fd
    same_place fd b s k =
        let f : some s.pollfd ≡ some own.pollfd =
          sym s.found ∙ ap (get_elem? p.pollfds) k ∙ own.found in
        let g : s.pollfd ≡ own.pollfd = cc in
        sym s.owned ∙ ap (λ (x : PollFd). owner x.fd) g ∙ own.owned

    in_range : own.place < length p.pollfds
    in_range = lt_of_get_elem? p.pollfds own.place own.pollfd own.found

    changed-found : get_elem? (set p.pollfds own.place (entry chan)) own.place ≡ some (entry chan)
    changed-found = get_elem?-set_self p.pollfds own.place (entry chan) in_range

    changed-slot : (fd b : ℕ) → p.channels fd ≡ some b → Slot (changed own.place) fd b
    changed-slot fd b e =
        let s = v.slot fd b e in
        elim (ℕ_discrete own.place s.place) [
          | yes k ↦ record {
            same_fd = s.same_fd;
            place = own.place;
            pollfd = entry chan;
            index = s.index ∙ ap pos (sym k);
            found = changed-found;
            owned = owner-entry ∙ sym (same_place fd b s (sym k));
            behind = own.behind;
          }
          | no k ↦ record {
            same_fd = s.same_fd;
            place = s.place;
            pollfd = s.pollfd;
            index = s.index;
            found = get_elem?-set_ne p.pollfds (entry chan) k ∙ s.found;
            owned = s.owned;
            behind = s.behind;
          }
        ]

    changed-back :
        (i : ℕ) (pfd : PollFd)
        → init_event_list_size ≤ i
        → get_elem? (set p.pollfds own.place (entry chan)) i ≡ some pfd
        → Back (changed own.place) i pfd
    changed-back i pfd h e = elim (ℕ_discrete own.place i) [
      | yes k ↦
          let f : some pfd ≡ some (entry chan) =
            sym e ∙ ap (get_elem? (set p.pollfds own.place (entry chan))) (sym k) ∙ changed-found in
          let g : pfd ≡ entry chan = cc in
          record {
            address = a;
            registered =
                ap (λ (x : PollFd). p.channels (owner x.fd)) g ∙ ap p.channels owner-entry ∙ known;
            at = own.index ∙ ap pos k;
          }
      | no k ↦
          let b = v.back i pfd h (sym (get_elem?-set_ne p.pollfds (entry chan) k) ∙ e) in
          record { address = b.address; registered = b.registered; at = b.at }
    ]

    changed-Inv : Inv (changed own.place)
    changed-Inv = record {
      slot = changed-slot;
      back = changed-back;
      initial = omega (arith, v.initial, length-set p.pollfds own.place (entry chan));
    }

    change_channel_lem : update_channel p a ≡ ok (changed own.place)
    unfolding update_channel change_channel
    change_channel_lem = ground (arith, own.index, known, own.found, own.owned)

  -- The entry of the channel shows its events, and poll(2) ignores it if those are none.
  pub record Shows (q : PollPoller) : Type 0 where
    pub place : ℕ
    pub index : (q.objects a).index ≡ pos place
    pub shown : get_elem? q.pollfds place ≡ some (entry (q.objects a))

  -- `updateChannel` of a registered channel returns, keeps the invariant, and makes the channel's
  -- entry show its events.
  pub update_channel-Inv :
      Inv p → p.channels chan.fd ≡ some a → Returns (update_channel p a) (λ q. Inv q × Shows q)
  update_channel-Inv v known = (
    changed (own v known).place,
    change_channel_lem v known,
    (
      changed-Inv v known,
      record {
        place = (own v known).place;
        index = (own v known).index;
        shown = changed-found v known;
      },
    ),
  )

  -- `updateChannel` of a new channel, whose descriptor is not in use, returns, keeps the invariant,
  -- and registers the channel.
  pub update_channel-new :
      (n : ℕ)
      → Inv p
      → chan.index ≡ negsuc n
      → p.channels chan.fd ≡ none
      → Returns (update_channel p a) (λ q. Inv q × (has_channel q a ≡ true))
  unfolding update_channel add_channel has_channel
  update_channel-new n v new free =
      (added, (ground (arith, new, free)), (added-Inv n v new free, ground arith))
