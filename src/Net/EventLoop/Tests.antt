-- ===== src/Net/EventLoop/Tests.antt =====
-- A loop that another thread hands a functor while it sleeps; the functor queues another one.
use dws.Base.{ℕ, refl, List, [], ◌∷◌, Bool, true, false}
use dws.Net.EventLoop.{
  EventLoop, init, start_loop, wakeup, handle_read, push_functor, wake_after, poll_returns,
  take_functors, events_handled, call_functor,
}
use dws.Net.EventLoop.Wakeup.{
  History, starts, pushes_outside, wakes_outside, pushes_inside, wakes_inside, polls, reads, takes,
  calls, ends, Awake, History-Awake,
}

abbrev loop_of : Bool → Bool → List ℕ → List ℕ → ℕ → EventLoop ℕ
loop_of handling calling pending functors count = record {
  looping = true;
  quit_flag = false;
  event_handling = handling;
  calling_pending_functors = calling;
  pending_functors = pending;
  functors = functors;
  wakeup_count = count;
}

history : History (loop_of false false (8 ∷ []) [] 1) 0 false (7 ∷ 8 ∷ []) (7 ∷ [])
unfolding init start_loop wakeup handle_read push_functor wake_after poll_returns take_functors
    events_handled call_functor
history =
    ends {l = loop_of false true (8 ∷ []) [] 1}
      (wakes_inside {l = loop_of false true (8 ∷ []) [] 0} (
        pushes_inside {l = loop_of false true [] [] 0} {queued = 7 ∷ []} {called = 7 ∷ []} 8
          (calls {l = loop_of false true [] (7 ∷ []) 0} {called = []} 7
            (takes {l = loop_of true false (7 ∷ []) [] 0}
              (reads {l = loop_of true false (7 ∷ []) [] 1}
                (polls {l = loop_of false false (7 ∷ []) [] 1}
                  (wakes_outside {l = loop_of false false (7 ∷ []) [] 0} (
                    pushes_outside {l = loop_of false false [] [] 0} {queued = []} 7 (starts refl)))
                  refl)
                refl)
              refl)
            refl)
          refl))
      refl refl

History-Awake_example : Awake (loop_of false false (8 ∷ []) [] 1) 0 false (7 ∷ 8 ∷ []) (7 ∷ [])
History-Awake_example = History-Awake history
