-- ===== src/Threads/Pool/Tests.antt =====
-- A pool of two threads and a queue of one task.
use dws.Base.{
  ℕ, ◌≡◌, ◌≢◌, refl, arith, List, [], ◌∷◌, none, Bool, true, false, if◌then◌else◌, ◌⊎◌, ok,
}
use dws.Threads.Pool.{
  ThreadPool, ran_here, waits, refused, init, start, stop, is_full, run, take_task, goes_on,
}
use dws.Threads.Pool.Order.{
  History, begin, accepts, enters, takes, stops, InOrder, History-InOrder, stop-releases,
  start-starves,
}

abbrev pool : List ℕ → Bool → ThreadPool ℕ
pool tasks running = record { queue = tasks; max_queue_size = 1; running = running; threads = 2 }

-- Task 7 is taken, task 8 is left when the pool stops.
history : History (pool [] true) (pool (8 ∷ []) false) 0 (7 ∷ 8 ∷ []) (7 ∷ [])
unfolding run is_full goes_on take_task stop
history = stops {q = pool (8 ∷ []) true} (
    accepts {q = pool [] true} {ins = 7 ∷ []} {outs = 7 ∷ []} 8
      (takes {q = pool (7 ∷ []) true} {outs = []} 7
        (enters (accepts {q = pool [] true} {ins = []} 7 begin refl) refl) refl)
      refl)

History-InOrder_example : InOrder 1 2 (pool (8 ∷ []) false) (7 ∷ 8 ∷ []) (7 ∷ [])
History-InOrder_example = History-InOrder refl history

stop-releases_runs :
    ((run (stop (pool (7 ∷ []) true)) 8 ≡ ran_here) ⊎ (run (stop (pool (7 ∷ []) true)) 8 ≡ refused))
    × (goes_on (stop (pool (7 ∷ []) true)) ≡ false)
    × (take_task (stop (pool (7 ∷ []) true)) ≢ none)
stop-releases_runs = stop-releases (pool (7 ∷ []) true) 8

abbrev started : ThreadPool ℕ
started = record { queue = []; max_queue_size = 0; running = true; threads = 4 }

start_four : start init 4 ≡ ok started
unfolding start init
start_four = refl

abbrev nothing : List ℕ
nothing = []

start-starves_example :
    (nothing ≡ [])
    × (nothing ≡ [])
    × ((t : ℕ) → run started t ≡ (if started.running then waits else refused))
start-starves_example =
    start-starves {inside = 0} {ins = []} {outs = []} 4 (omega arith) start_four begin
