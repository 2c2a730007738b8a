-- ===== src/Net/LoopPool/Tests.antt =====
-- A pool of three loops.
use dws.Base.{◌≡◌, refl, arith, [], ◌∷◌, true, ok}
use dws.Net.LoopPool.{LoopPool}
use dws.Net.LoopPool.RoundRobin.{next_loops, cycle, next_loops_lem}

abbrev three : LoopPool
three = record {
  base_loop = 10;
  started = true;
  num_threads = 3;
  next = 2;
  loops = 11 ∷ 12 ∷ 13 ∷ [];
}

next_loops_lem_runs : next_loops 4 three ≡ ok (cycle (11 ∷ 12 ∷ 13 ∷ []) 2 4)
next_loops_lem_runs = next_loops_lem 4 three (record { running = refl; in_range = omega arith })
