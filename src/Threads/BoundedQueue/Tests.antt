-- ===== src/Threads/BoundedQueue/Tests.antt =====
-- A queue with room for one item.
use dws.Base.{ℕ, ◌≡◌, refl, arith, [], ◌∷◌, some, ◌⊎◌}
use dws.Threads.BoundedQueue.{Queue, init, put, get}
use dws.Threads.BoundedQueue.Fifo.{History, start, puts, gets, IsFifo, History-IsFifo, progress}

abbrev after : Queue ℕ
after = record { max_size = 1; queue = 8 ∷ [] }

history : History (init 1) after (7 ∷ 8 ∷ []) (7 ∷ [])
unfolding init put get
history =
    puts {r = record { max_size = 1; queue = [] }} {ins = 7 ∷ []} {outs = 7 ∷ []} 8
      (gets {r = record { max_size = 1; queue = 7 ∷ [] }} {outs = []} 7
        (puts {r = record { max_size = 1; queue = [] }} {ins = []} 7 start refl) refl)
      refl

History-IsFifo_example : IsFifo 1 after (7 ∷ 8 ∷ []) (7 ∷ [])
History-IsFifo_example = History-IsFifo 1 history

progress_runs :
    ((s : Queue ℕ) × (put after 9 ≡ some s)) ⊎ ((y : ℕ) × (s : Queue ℕ) × (get after ≡ some (y, s)))
progress_runs = progress after 9 (omega arith)
