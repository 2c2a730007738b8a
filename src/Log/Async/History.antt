-- ===== src/Log/Async/History.antt =====
-- The front ends and the back end together, in any interleaving of their steps.
use mathlib.Core.List.{append-nil, append_assoc}
use dws.Base.{lt→ltb}
use dws.Base.{
  ℕ, ◌-◌, ◌<◌, ◌≡◌, refl, ap, ap₂, sym, ◌∙◌, arith, List, [], ◌++◌, length, take, if◌then◌else◌,
  ltb, ok,
}
use dws.Log.Stream.{init}
use dws.Log.Stream.Text.{init-Holds}
use dws.Log.Async.{AsyncLogging, Backend, start_frontend, start_backend, append, turn, texts}
use dws.Log.Async.Delivery.{Ready, Rested, pending, append-pending, self}
use dws.Log.Async.Turn.{Turned, turn_lem}

-- A run of the logger with all that has been logged. Each line is shorter than a buffer, and the back
-- end is never 25 full buffers behind when it takes its turn.
pub data History (note : ℕ → List ℕ) (size : ℕ) : AsyncLogging → Backend → List ℕ → Type 0 where
  starts : History note size (start_frontend size) (start_backend size) []
  logs :
      {a : AsyncLogging} {b : Backend} {logged : List ℕ} (line : List ℕ)
      → History note size a b logged
      → length line < size
      → History note size (append size a line) b (logged ++ line)
  turns :
      {a a' : AsyncLogging} {b b' : Backend} {logged : List ℕ}
      → History note size a b logged
      → length a.buffers < 25
      → turn note a b ≡ ok (a', b')
      → History note size a' b' logged

pub record Kept (size : ℕ) (a : AsyncLogging) (b : Backend) (logged : List ℕ) : Type 0 where
  pub ready : Ready size a
  pub rested : Rested size b
  pub all : b.output ++ pending a ≡ logged

pub start-Kept : (size : ℕ) → 0 < size → Kept size (start_frontend size) (start_backend size) []
unfolding start_frontend start_backend texts
start-Kept size p =
    let h = init-Holds size p in
    record {
      ready = record { current = self h; next = h; full = tt; used = λ k. cc };
      rested = record { first = (init size, refl, h); second = (init size, refl, h) };
      all = h.content;
    }

turn-Kept :
    (note : ℕ → List ℕ) (size : ℕ) (a a' : AsyncLogging) (b b' : Backend) (logged : List ℕ)
    → Kept size a b logged
    → length a.buffers < 25
    → turn note a b ≡ ok (a', b')
    → Kept size a' b' logged
turn-Kept note size a a' b b' logged k lt e =
    let (r, o, t) = turn_lem note size a b k.ready k.rested in
    let r_lem : r ≡ (a', b') = ground (arith, e, o) in
    let t' : Turned note size a b (a', b') = rw r_lem at t in
    let below : b.output
          ++ (if ltb (length a.buffers) 25
              then pending a
              else note (length a.buffers - 1) ++ texts (take 2 a.buffers))
        ≡ b.output ++ pending a =
      rw (lt→ltb (length a.buffers) 25 lt) refl in
    record {
      ready = t'.ready;
      rested = t'.rested;
      all =
          ap₂ ◌++◌ (t'.written ∙ below) t'.nothing_left
          ∙ append-nil (b.output ++ pending a)
          ∙ k.all;
    }

-- With buffers of at least one byte, lines that are shorter than a buffer, and a back end that is never
-- 25 full buffers behind when it takes its turn: what has been written to the log file, followed by what
-- is still in the buffers, is all that was logged, in the order in which it was logged, in any
-- interleaving of front ends and back end.
pub History-Kept :
    {note : ℕ → List ℕ} {size : ℕ} {a : AsyncLogging} {b : Backend} {logged : List ℕ}
    → 0 < size
    → History note size a b logged
    → Kept size a b logged
History-Kept p starts = start-Kept _ p
History-Kept {size = size} p (logs {a} {b} {logged} line h lt) =
    let k = History-Kept p h in
    let s = append-pending size a line k.ready lt in
    record {
      ready = s.0;
      rested = k.rested;
      all =
          ap (λ l. b.output ++ l) s.1
          ∙ sym (append_assoc b.output (pending a) line)
          ∙ ap (λ l. l ++ line) k.all;
    }
History-Kept p (turns h lt e) = turn-Kept _ _ _ _ _ _ _ (History-Kept p h) lt e
