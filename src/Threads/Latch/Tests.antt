-- ===== src/Threads/Latch/Tests.antt =====
-- A latch of two after three calls.
use dws.Base.{◌≡◌, arith, false}
use dws.Base.Int.{pos, negsuc}
use dws.Threads.Latch.{init, waits, get_count}
use dws.Threads.Latch.Release.{count_down_times, count_down_times-waits}

count_down_times-waits_runs :
    let l = count_down_times 3 (init (pos 2)) in
    (waits l ≡ false) × (l.notified ≡ 1) × (get_count l ≡ negsuc 0)
count_down_times-waits_runs = count_down_times-waits 2 3 (omega arith)
