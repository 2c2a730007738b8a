-- ===== src/Net/LoopPool.antt =====
-- Net/LoopPool models class EventLoopThreadPool (src/net/src/EventLoopThreadPool.cc). A loop is the
-- number of its address.
pub mod RoundRobin
mod Tests
use Prim.Native.Nat.{bit_and}
use dws.Base.{
  ℕ, zero, suc, ◌+◌, List, [], ◌∷◌, ◌++◌, length, get_elem?, none, some, Bool, true, false, not,
  if◌then◌else◌, ◌==◌, leb, Result, ok, err, ◌>>=◌, ◌>>◌, assert, out_of_range,
}

pub record LoopPool : Type 0 where
  pub base_loop : ℕ
  pub started : Bool
  pub num_threads : ℕ
  pub next : ℕ
  pub loops : List ℕ

pub init : ℕ → LoopPool
init base_loop = record {
  base_loop = base_loop;
  started = false;
  num_threads = 0;
  next = 0;
  loops = [];
}

pub set_thread_num : LoopPool → ℕ → LoopPool
set_thread_num p num_threads = record p { num_threads = num_threads }

-- `start`; the argument gives the loop that the thread of each number starts.
pub start_loops : ℕ → (ℕ → ℕ) → ℕ → List ℕ
start_loops zero start_loop i = []
start_loops (suc n) start_loop i = start_loop i ∷ start_loops n start_loop (i + 1)

unfoldable pub start : LoopPool → (ℕ → ℕ) → Result LoopPool
unfolding start_loops
start p start_loop = do
  assert (not p.started)
  ok (record p { started = true; loops = p.loops ++ start_loops p.num_threads start_loop 0 })

-- `loops_[i]`, where an index out of range is a fault.
abbrev pub loop_at : List ℕ → ℕ → Result ℕ
loop_at ls i = elim (get_elem? ls i) [ none ↦ err out_of_range | some l ↦ ok l ]

unfoldable pub get_next_loop : LoopPool → Result (ℕ × LoopPool)
get_next_loop p = do
  assert p.started
  if length p.loops == 0 then ok (p.base_loop, p) else (do
    loop ← loop_at p.loops p.next
    ok (loop, record p { next = if leb (length p.loops) (p.next + 1) then 0 else p.next + 1 }))

pub get_loop_for_hash : LoopPool → ℕ → Result ℕ
get_loop_for_hash p hash_code =
    if length p.loops == 0
    then ok p.base_loop
    else loop_at p.loops (bit_and hash_code (length p.loops))

pub get_all_loops : LoopPool → Result (List ℕ)
get_all_loops p = do
  assert p.started
  if length p.loops == 0 then ok (p.base_loop ∷ []) else ok p.loops
