-- ===== src/Log/Async/Turn.antt =====
-- One turn of the back end's loop.
use dws.Base.{
  Returns, ℕ, zero, suc, ◌-◌, ◌≤◌, ◌<◌, ◌≡◌, ◌≢◌, refl, ap, sym, ◌∙◌, arith, List, [], ◌∷◌, ◌++◌,
  length, take, Option, none, some, true, false, not, if◌then◌else◌, ◌==◌, min, length-append,
  length-take, ltb, Bool-cases, inl, inr,
}
use dws.Log.Stream.{FixedBuffer, reset, to_string}
use dws.Log.Stream.Text.{Holds, reset-Holds, length-to_string}
use dws.Log.Async.{
  AsyncLogging, Backend, texts, kept, dropped, at_most_two, refill, give_next, left_over, write_out,
  turn,
}
use dws.Log.Async.Delivery.{
  Sound, Spare, Ready, Rested, pending, take_back_lem, Sound-append, Sound-take, texts-append, self,
}

-- What a turn leaves behind.
pub record Turned (note : ℕ → List ℕ) (size : ℕ) (a : AsyncLogging) (b : Backend)
    (r : AsyncLogging × Backend) : Type 0 where
  pub ready : Ready size r.0
  pub rested : Rested size r.1
  pub nothing_left : pending r.0 ≡ []
  -- With 25 full buffers or more, a note and the first two of them are written.
  pub written :
      r.1.output
      ≡ b.output
        ++ (if ltb (length a.buffers) 25
            then pending a
            else note (length a.buffers - 1) ++ texts (take 2 a.buffers))

kept-Sound : (size : ℕ) (bs : List FixedBuffer) → Sound size bs → Sound size (at_most_two (kept bs))
unfolding kept at_most_two
kept-Sound size bs s = elim (Bool-cases (ltb 25 (length bs))) [
  | inl e ↦ rw e (two (take 2 bs) (Sound-take size 2 bs s))
  | inr e ↦ rw e (two bs s)
]
  where
    two :
        (cs : List FixedBuffer)
        → Sound size cs
        → Sound size (if ltb 2 (length cs) then take 2 cs else cs)
    two cs t = elim (Bool-cases (ltb 2 (length cs))) [
      | inl e ↦ rw e (Sound-take size 2 cs t)
      | inr e ↦ rw e t
    ]

length-kept : (bs : List FixedBuffer) → length (at_most_two (kept bs)) ≡ min 2 (length bs)
unfolding kept at_most_two
length-kept bs = ground (arith, length-take 2 bs, length-take 2 (take 2 bs))

take-append-short :
    (n : ℕ) (xs ys : List FixedBuffer) → n ≤ length xs → take n (xs ++ ys) ≡ take n xs
take-append-short zero xs ys h = refl
take-append-short (suc n) [] ys h = absurd (omega arith)
take-append-short (suc n) (x ∷ xs) ys h = ap (◌∷◌ x) (take-append-short n xs ys (omega arith))

refill_lem :
    (size : ℕ) (next : Option FixedBuffer) (new2 : FixedBuffer) (rest : List FixedBuffer)
    → Holds size [] new2
    → Sound size rest
    → (next ≡ none → 0 < length rest)
    → Returns (refill (left_over next new2) rest) (λ (x : FixedBuffer). Holds size [] x)
unfolding refill left_over
refill_lem size (some b) new2 rest h s k = (new2, refl, h)
refill_lem size none new2 rest h s k =
    let (r, e, p) = take_back_lem size rest s (k refl) in
    (reset r.0, rw e refl, reset-Holds size (to_string r.0) r.0 p.0)

give_next-Spare :
    (size : ℕ) (next : Option FixedBuffer) (new2 : FixedBuffer)
    → Spare size next
    → Holds size [] new2
    → Spare size (give_next next new2) × (give_next next new2 ≢ none)
unfolding give_next
give_next-Spare size (some b) new2 s h = (s, λ e. cc)
give_next-Spare size none new2 s h = (h, λ e. cc)

empty_cur : (size : ℕ) (b : FixedBuffer) → Holds size [] b → b.cur ≡ 0
empty_cur size b h = sym (length-to_string h)

written_lem :
    (note : ℕ → List ℕ) (a : AsyncLogging)
    → dropped note (a.buffers ++ a.current_buffer ∷ [])
        ++ texts (kept (a.buffers ++ a.current_buffer ∷ []))
      ≡ (if ltb (length a.buffers) 25
          then pending a
          else note (length a.buffers - 1) ++ texts (take 2 a.buffers))
unfolding kept dropped
written_lem note a =
    let to_write = a.buffers ++ a.current_buffer ∷ [] in
    let n : length to_write ≡ suc (length a.buffers) =
      omega (arith, length-append a.buffers (a.current_buffer ∷ [])) in
    elim (Bool-cases (ltb (length a.buffers) 25)) [
      | inl e ↦
          let o : ltb 25 (length to_write) ≡ false = ground (arith, n, e) in
          rw (o, e) (texts-append a.buffers a.current_buffer)
      | inr e ↦
          let o : ltb 25 (length to_write) ≡ true = ground (arith, n, e) in
          let k : length to_write - 2 ≡ length a.buffers - 1 = omega (arith, n) in
          rw (o, e, k, take-append-short 2 a.buffers (a.current_buffer ∷ []) (ground (arith, e)))
            refl
    ]

write_out_lem :
    (note : ℕ → List ℕ) (size : ℕ) (a : AsyncLogging) (b : Backend) (new1 new2 : FixedBuffer)
    → Ready size a
    → Holds size [] new1
    → Holds size [] new2
    → Returns (write_out note a b new1 new2) (Turned note size a b)
unfolding write_out texts
write_out_lem note size a b new1 new2 v h1 h2 =
    let to_write = a.buffers ++ a.current_buffer ∷ [] in
    let n : length to_write ≡ suc (length a.buffers) =
      omega (arith, length-append a.buffers (a.current_buffer ∷ [])) in
    let s =
      kept-Sound size to_write (Sound-append size a.buffers a.current_buffer v.full v.current) in
    let (r, e, p) =
      take_back_lem size (at_most_two (kept to_write)) s (omega (arith, length-kept to_write, n)) in
    let (x, f, q) =
      refill_lem size a.next_buffer new2 r.1 h2 p.1
        (λ k. omega (arith, v.used k, p.2, length-kept to_write, n)) in
    let c1 : (new1.cur == 0) ≡ true = ground (arith, empty_cur size new1 h1) in
    let c2 : (new2.cur == 0) ≡ true = ground (arith, empty_cur size new2 h2) in
    let c3 : not (length to_write == 0) ≡ true = ground (arith, n) in
    let g = give_next-Spare size a.next_buffer new2 v.next h2 in
    (
      result r.0 x,
      rw (c1, c2, c3, e, f) refl,
      record {
        ready = record { current = self h1; next = g.0; full = tt; used = λ k. absurd (g.1 k) };
        rested = record {
          first = (reset r.0, refl, reset-Holds size (to_string r.0) r.0 p.0);
          second = (x, refl, q);
        };
        nothing_left = h1.content;
        written = ap (λ l. b.output ++ l) (written_lem note a);
      },
    )
  where
    result : FixedBuffer → FixedBuffer → AsyncLogging × Backend
    result b1 b2 = (
      record { current_buffer = new1; next_buffer = give_next a.next_buffer new2; buffers = [] },
      record {
        new_buffer1 = some (reset b1);
        new_buffer2 = some b2;
        output =
            b.output
            ++ (dropped note (a.buffers ++ a.current_buffer ∷ [])
                ++ texts (kept (a.buffers ++ a.current_buffer ∷ [])));
      },
    )

turn-write_out :
    (note : ℕ → List ℕ) (a : AsyncLogging) (b : Backend) (x y : FixedBuffer)
    → b.new_buffer1 ≡ some x
    → b.new_buffer2 ≡ some y
    → turn note a b ≡ write_out note a b x y
unfolding turn
turn-write_out note a b x y e f = ground (arith, e, f)

-- No assertion of a turn fails: with a ready front end it comes to its end with two empty buffers for
-- the next turn. It writes all that was pending, in order, if fewer than 25 full buffers are queued;
-- else it writes a note and the first two of them, and the rest is lost.
pub turn_lem :
    (note : ℕ → List ℕ) (size : ℕ) (a : AsyncLogging) (b : Backend)
    → Ready size a
    → Rested size b
    → Returns (turn note a b) (Turned note size a b)
turn_lem note size a b v r =
    let (x, e, h) = r.first in
    let (y, f, k) = r.second in
    let (c, o, t) = write_out_lem note size a b x y v h k in
    (c, turn-write_out note a b x y e f ∙ o, t)
