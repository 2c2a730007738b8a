-- ===== src/Threads/BlockQueue/Tests.antt =====
-- Two items, of which one is taken and one drained.
use dws.Base.{ℕ, ◌≡◌, refl, List, [], ◌∷◌, ◌++◌}
use dws.Threads.BlockQueue.{BlockQueue, init, put, take_front, drain}
use dws.Threads.BlockQueue.Fifo.{History, start, puts, takes, drains, History-order}

abbrev queue_of : List ℕ → BlockQueue ℕ
queue_of xs = record { queue = xs }

history : History (queue_of []) (7 ∷ 8 ∷ []) (7 ∷ 8 ∷ [])
unfolding init put take_front drain
history =
    drains {r = queue_of (8 ∷ [])} {outs = 7 ∷ []} {xs = 8 ∷ []}
      (takes {r = queue_of (7 ∷ 8 ∷ [])} {outs = []} 7
        (puts {r = queue_of (7 ∷ [])} {ins = 7 ∷ []} 8 (puts {r = queue_of []} {ins = []} 7 start))
        refl)
      refl

abbrev items : List ℕ
items = 7 ∷ 8 ∷ []

History-order_runs : items ≡ items ++ []
History-order_runs = History-order history
