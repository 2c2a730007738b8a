-- ===== src/Net/LoopThread/Tests.antt =====
-- EventLoopThread (src/net/src/EventLoopThread.cc) on concrete inputs.
use dws.Base.{◌≡◌, ◌⊎◌, refl, none, true, false}
use dws.Net.LoopThread.{
  LoopThread, created, looking, asleep, returned, init, start_thread, look, publish, finish,
  destroy,
}
use dws.Net.LoopThread.HandOver.{Reachable, begun, started, looked, published, running-returns}

abbrev sleeping : LoopThread
sleeping = record { exiting = false; loop = none; thread = created; starter = asleep }

sleeping-Reachable : Reachable sleeping
unfolding init start_thread look
sleeping-Reachable = looked (started begun refl) refl

-- The caller slept before the thread had its loop 9.
running-returns_example :
    ((publish 9 sleeping).starter ≡ returned 9)
    ⊎ (((publish 9 sleeping).starter ≡ looking)
        × ((look (publish 9 sleeping)).starter ≡ returned 9))
unfolding publish
running-returns_example = running-returns 9 (published 9 sleeping-Reachable refl) refl

-- A loop that ends before the caller looks leaves it asleep.
ended_first : (look (finish (publish 9 sleeping))).starter ≡ asleep
unfolding look finish publish
ended_first = refl

joins : destroy (publish 9 sleeping) ≡ (true, record (publish 9 sleeping) { exiting = true })
unfolding destroy publish
joins = refl
