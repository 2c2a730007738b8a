-- ===== src/Net/EPollPoller/Register.antt =====
-- `updateChannel` and `removeChannel` of EPollPoller.
use dws.Base.{
  Returns, ℕ, ◌≡◌, arith, none, some, if◌then◌else◌, Bool-cases, inl, inr, err, assertion,
}
use dws.Net.Channel.{Channel, Events, is_none_event}
use dws.Net.PollPoller.{update_at, set_index}
use dws.Net.EPollPoller.{
  Epoll, EPollPoller, new, added, deleted, update, register_channel, modify_channel, update_channel,
  remove_channel,
}

module _ (os : Epoll) (p : EPollPoller os) (a : ℕ) where
  open os use {interest}

  abbrev chan : Channel
  chan = p.objects a

  -- The owner of the channel at `a` sets its events.
  abbrev pub with_events : EPollPoller os → Events → EPollPoller os
  with_events q e = record q {
    objects = update_at q.objects a (record (q.objects a) { events = e });
  }

  -- A registered channel whose index is `kNew` can be neither updated nor removed.
  stuck-update :
      (q : EPollPoller os)
      → (q.objects a).index ≡ new
      → q.channels (q.objects a).fd ≡ some a
      → update_channel os q a ≡ err assertion
  unfolding update_channel register_channel
  stuck-update q h k = ground (arith, h, k)

  stuck-remove :
      (q : EPollPoller os) → (q.objects a).index ≡ new → remove_channel os q a ≡ err assertion
  unfolding remove_channel
  stuck-remove q h = ground (arith, h)

  -- A new channel gets into the kernel's interest list, but its index stays `kNew`: when its owner
  -- changes its events, or has none left and removes it, the poller's assertions fail.
  pub update_channel-keeps_new :
      chan.index ≡ new
      → p.channels chan.fd ≡ none
      → interest p.kernel chan.fd ≡ none
      → Returns (update_channel os p a) (λ q.
        (interest q.kernel chan.fd ≡ some chan.events)
        × ((e : Events) → update_channel os (with_events q e) a ≡ err assertion)
        × ((e : Events) → remove_channel os (with_events q e) a ≡ err assertion))
  unfolding update_channel register_channel update remove_channel
  update_channel-keeps_new h k l =
      let (k', e, f) = os.ctl_add p.kernel chan.fd chan.events l in
      let q : EPollPoller os = record p {
        kernel = k';
        channels = update_at p.channels chan.fd (some a);
        objects = set_index p.objects a chan.index;
      } in
      (
        q,
        ground (arith, h, k, e),
        (
          f,
          (λ ev. stuck-update (with_events q ev) (ground (arith, h)) (ground arith)),
          λ ev. stuck-remove (with_events q ev) (ground (arith, h)),
        ),
      )

  -- A channel that the poller holds as `kAdded`: its events are changed in the interest list, or it
  -- is taken from the list, and becomes `kDeleted`, if it has none.
  pub update_channel-added :
      (d : Events)
      → chan.index ≡ added
      → p.channels chan.fd ≡ some a
      → interest p.kernel chan.fd ≡ some d
      → Returns (update_channel os p a) (λ q.
        ((q.objects a).index ≡ (if is_none_event chan then deleted else added))
        × (interest q.kernel chan.fd ≡ (if is_none_event chan then none else some chan.events)))
  unfolding update_channel modify_channel update
  update_channel-added d h k l = elim (Bool-cases (is_none_event chan)) [
    | inl idle ↦
        let (k', e, f) = os.ctl_del p.kernel chan.fd chan.events d l in
        (
          record p { kernel = k'; objects = set_index p.objects a deleted },
          ground (arith, h, k, e, idle),
          (ground arith, rw idle f),
        )
    | inr busy ↦
        let (k', e, f) = os.ctl_mod p.kernel chan.fd chan.events d l in
        (record p { kernel = k' }, ground (arith, h, k, e, busy), (rw busy h, rw busy f))
  ]
