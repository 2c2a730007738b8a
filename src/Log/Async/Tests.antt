-- ===== src/Log/Async/Tests.antt =====
-- A logger with buffers of four bytes.
use dws.Base.{Returns, ℕ, arith, List, [], ◌∷◌}
use dws.Log.Async.{start_frontend, start_backend, append, turn}
use dws.Log.Async.Turn.{Turned, turn_lem}
use dws.Log.Async.History.{History, starts, logs, Kept, start-Kept, History-Kept}

abbrev note : ℕ → List ℕ
note n = 100 ∷ n ∷ []

-- Two lines, of which the second starts a new buffer.
two_lines :
    History note 4
      (append 4 (append 4 (start_frontend 4) (97 ∷ 98 ∷ [])) (99 ∷ 10 ∷ []))
      (start_backend 4)
      (97 ∷ 98 ∷ 99 ∷ 10 ∷ [])
two_lines =
    logs {logged = 97 ∷ 98 ∷ []} (99 ∷ 10 ∷ [])
      (logs {logged = []} (97 ∷ 98 ∷ []) starts (omega arith)) (omega arith)

History-Kept_example :
    Kept 4
      (append 4 (append 4 (start_frontend 4) (97 ∷ 98 ∷ [])) (99 ∷ 10 ∷ []))
      (start_backend 4)
      (97 ∷ 98 ∷ 99 ∷ 10 ∷ [])
History-Kept_example = History-Kept (omega arith) two_lines

start-both : Kept 4 (start_frontend 4) (start_backend 4) []
start-both = start-Kept 4 (omega arith)

turn_lem_example :
    Returns
      (turn note (start_frontend 4) (start_backend 4))
      (Turned note 4 (start_frontend 4) (start_backend 4))
turn_lem_example =
    turn_lem note 4 (start_frontend 4) (start_backend 4) start-both.ready start-both.rested
