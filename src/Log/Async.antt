-- ===== src/Log/Async.antt =====
-- Log/Async models class AsyncLogging (src/base/src/AsyncLogging.cc). A step holds the mutex: one call
-- of `append` by a front end, or one turn of the loop of `threadFunc`, whose part outside the lock
-- touches only the back end's own buffers. LogFile is what the back end writes to: its bytes are kept
-- in `output`.
pub mod Delivery
pub mod Turn
pub mod History
mod Tests
use dws.Base.{
  ℕ, zero, suc, ◌-◌, ◌*◌, List, [], ◌∷◌, ◌++◌, length, take, Option, none, some, true, false, not,
  if◌then◌else◌, ◌==◌, ltb, Result, ok, err, ◌>>=◌, ◌>>◌, assert, assertion,
}
use dws.Log.Stream.{FixedBuffer, init, avail, reset, to_string}
use dws.Log.Stream

-- kLargeBuffer. The functions take the size of the buffers as an argument.
abbrev pub large_buffer : ℕ
large_buffer = 4000 * 1000

pub record AsyncLogging : Type 0 where
  pub current_buffer : FixedBuffer
  pub next_buffer : Option FixedBuffer
  pub buffers : List FixedBuffer

-- `new_buffer1` and `new_buffer2` are locals of `threadFunc`.
pub record Backend : Type 0 where
  pub new_buffer1 : Option FixedBuffer
  pub new_buffer2 : Option FixedBuffer
  pub output : List ℕ

pub start_frontend : ℕ → AsyncLogging
start_frontend size = record {
  current_buffer = init size;
  next_buffer = some (init size);
  buffers = [];
}

pub start_backend : ℕ → Backend
start_backend size = record {
  new_buffer1 = some (init size);
  new_buffer2 = some (init size);
  output = [];
}

pub fresh : ℕ → Option FixedBuffer → FixedBuffer
fresh size (some b) = b
fresh size none = init size

pub append : ℕ → AsyncLogging → List ℕ → AsyncLogging
append size a logline =
    if ltb (length logline) (avail a.current_buffer)
    then record a { current_buffer = Stream.append a.current_buffer logline }
    else record {
      current_buffer = Stream.append (fresh size a.next_buffer) logline;
      next_buffer = none;
      buffers = a.buffers ++ a.current_buffer ∷ [];
    }

-- `back` and `pop_back`, where the vector must not be empty.
pub take_back : List FixedBuffer → Result (FixedBuffer × List FixedBuffer)
take_back [] = err assertion
take_back (x ∷ []) = ok (x, [])
take_back (x ∷ y ∷ ys) = do (z, zs) ← take_back (y ∷ ys); ok (z, x ∷ zs)

-- The bytes of the buffers, in order.
pub texts : List FixedBuffer → List ℕ
texts [] = []
texts (b ∷ bs) = to_string b ++ texts bs

-- Of more than 25 buffers the first two are kept.
pub kept : List FixedBuffer → List FixedBuffer
kept bs = if ltb 25 (length bs) then take 2 bs else bs

pub dropped : (ℕ → List ℕ) → List FixedBuffer → List ℕ
dropped note bs = if ltb 25 (length bs) then note (length bs - 2) else []

pub at_most_two : List FixedBuffer → List FixedBuffer
at_most_two bs = if ltb 2 (length bs) then take 2 bs else bs

-- `newBuffer2`, taken from the written buffers if the front end has it now.
pub refill : Option FixedBuffer → List FixedBuffer → Result FixedBuffer
refill (some b) bs = ok b
refill none bs = do (b, rest) ← take_back bs; ok (reset b)

-- What the front end's `nextBuffer_` becomes, and what is left of `newBuffer2`.
pub give_next : Option FixedBuffer → FixedBuffer → Option FixedBuffer
give_next (some b) new2 = some b
give_next none new2 = some new2

pub left_over : Option FixedBuffer → FixedBuffer → Option FixedBuffer
left_over (some b) new2 = some new2
left_over none new2 = none

pub write_out :
    (ℕ → List ℕ)
    → AsyncLogging
    → Backend
    → FixedBuffer
    → FixedBuffer
    → Result (AsyncLogging × Backend)
write_out note a b new1 new2 =
    let to_write = a.buffers ++ a.current_buffer ∷ [] in
    do
      assert (new1.cur == 0)
      assert (new2.cur == 0)
      assert (not (length to_write == 0))
      (b1, rest) ← take_back (at_most_two (kept to_write))
      b2 ← refill (left_over a.next_buffer new2) rest
      ok (
        record { current_buffer = new1; next_buffer = give_next a.next_buffer new2; buffers = [] },
        record {
          new_buffer1 = some (reset b1);
          new_buffer2 = some b2;
          output = b.output ++ (dropped note to_write ++ texts (kept to_write));
        },
      )

-- One turn of the loop. `note n` is the line that says that `n` buffers were dropped.
pub turn : (ℕ → List ℕ) → AsyncLogging → Backend → Result (AsyncLogging × Backend)
turn note a b = elim (b.new_buffer1) [
  | none ↦ err assertion
  | some new1 ↦ elim (b.new_buffer2) [
    | none ↦ err assertion
    | some new2 ↦ write_out note a b new1 new2
  ]
]
