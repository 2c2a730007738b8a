-- ===== src/Threads/Thread/Tests.antt =====
-- Thread (src/base/src/Thread.cc) on concrete inputs.
use dws.Base.{◌≡◌, ◌≢◌, refl, arith, [], ◌∷◌, true, false, err, dangling}
use dws.Log.Stream.{convert, convert_loop, is_zero, is_negative, digit}
use dws.Threads.Thread.{
  Thread, behind, waiting, posted, gone, init, start, finish_start, write_tid, post, call,
  delete_data, use_data, detaches, default_name,
}
use dws.Threads.Thread.Start.{Reachable, begun, starts, writes, posts, goes_on, start-dangles}

-- "t"
abbrev ready : Thread
ready = record {
  started = true;
  joined = false;
  tid = 5;
  name = 116 ∷ [];
  sem = 1;
  data_alive = true;
  caller = waiting;
  worker = posted;
}

abbrev past : Thread
past = record ready { sem = 0; data_alive = false; caller = behind }

past-Reachable : Reachable 5 past
unfolding init start write_tid post finish_start use_data default_name
past-Reachable =
    goes_on {t = ready} (posts (writes (starts (begun 1 (116 ∷ [])) refl refl) refl refl) refl refl)
      refl (omega arith) refl

start-dangles_example :
    (past.tid ≡ 5)
    × (past.worker ≢ gone)
    × (call past ≡ err dangling)
    × (delete_data past ≡ err dangling)
start-dangles_example = start-dangles past-Reachable refl

-- A thread that ends before the caller goes on has it delete the data twice.
twice : finish_start (record ready { data_alive = false; worker = gone }) ≡ err dangling
unfolding finish_start
twice = refl

first_name : default_name 1 [] ≡ 84 ∷ 104 ∷ 114 ∷ 101 ∷ 97 ∷ 100 ∷ 49 ∷ []
unfolding default_name convert convert_loop is_zero is_negative digit
first_name = refl

not_joined : detaches past ≡ true
unfolding detaches
not_joined = refl
