-- ===== src/Threads/Thread.antt =====
-- Threads/Thread models class Thread (src/base/src/Thread.cc): the start of a thread, its ThreadData and
-- the semaphore, as steps of the caller of start and of the new thread. `data_alive` says whether the
-- ThreadData has not been deleted. The function of the thread is one step, and throws nothing.
pub mod Start
mod Tests
use dws.Base.{
  ℕ, suc, ◌-◌, List, [], ◌∷◌, take, Bool, true, false, ◌&&◌, not, ltb, Result, ok, err, ◌>>=◌, ◌>>◌,
  assert, dangling,
}
use dws.Base.Int.{pos}
use dws.Log.Stream.{convert}

-- The caller of start: before it, in `sem_wait`, behind it.
pub data Caller : Type 0 where
  before : Caller
  waiting : Caller
  behind : Caller

-- The thread: what it has done so far.
pub data Worker : Type 0 where
  absent : Worker
  created : Worker
  wrote_tid : Worker
  posted : Worker
  called : Worker
  gone : Worker

pub record Thread : Type 0 where
  pub started : Bool
  pub joined : Bool
  pub tid : ℕ
  pub name : List ℕ
  pub sem : ℕ
  pub data_alive : Bool
  pub caller : Caller
  pub worker : Worker

-- "Thread%d" in 32 bytes where no name is given; `num` is `numCreated_` after it has been counted up.
unfoldable pub default_name : ℕ → List ℕ → List ℕ
default_name num [] = take 31 (84 ∷ 104 ∷ 114 ∷ 101 ∷ 97 ∷ 100 ∷ convert (pos num))
default_name num (c ∷ cs) = c ∷ cs

unfoldable pub init : ℕ → List ℕ → Thread
unfolding default_name
init num name = record {
  started = false;
  joined = false;
  tid = 0;
  name = default_name num name;
  sem = 0;
  data_alive = false;
  caller = before;
  worker = absent;
}

-- An access of the ThreadData.
unfoldable pub use_data : Bool → Result (Unit {0})
use_data true = ok tt
use_data false = err dangling

-- `start` up to `sem_wait`.
unfoldable pub start : Thread → Result Thread
start t = do
  assert (not t.started)
  ok (record t { started = true; data_alive = true; caller = waiting; worker = created })

-- `start` from where `sem_wait` goes on: the unique_ptr deletes the ThreadData at the end.
unfoldable pub finish_start : Thread → Result Thread
unfolding use_data
finish_start t = do
  assert (ltb 0 t.tid)
  use_data t.data_alive
  ok (record t { sem = t.sem - 1; data_alive = false; caller = behind })

-- `runInThread`: the id of the thread is stored.
unfoldable pub write_tid : ℕ → Thread → Result Thread
unfolding use_data
write_tid id t = do use_data t.data_alive; ok (record t { tid = id; worker = wrote_tid })

unfoldable pub post : Thread → Result Thread
unfolding use_data
post t = do use_data t.data_alive; ok (record t { sem = suc t.sem; worker = posted })

-- `sem_` is cleared, the name is read, and the function is called.
unfoldable pub call : Thread → Result Thread
unfolding use_data
call t = do use_data t.data_alive; ok (record t { worker = called })

-- `delete data` in `startThread`.
unfoldable pub delete_data : Thread → Result Thread
unfolding use_data
delete_data t = do use_data t.data_alive; ok (record t { data_alive = false; worker = gone })

-- `join` up to the join of the thread itself.
unfoldable pub join : Thread → Result Thread
join t = do assert t.started; assert (not t.joined); ok (record t { joined = true })

-- Whether the destructor detaches the thread.
unfoldable pub detaches : Thread → Bool
detaches t = t.started && not t.joined
