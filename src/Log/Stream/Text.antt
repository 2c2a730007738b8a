-- ===== src/Log/Stream/Text.antt =====
-- What `operator<<` does to the buffer of a LogStream.
use mathlib.Core.List.{append-nil}
use dws.Base.{take-append_length}
use dws.Base.{
  ℕ, zero, suc, drop, ◌+◌, ◌-◌, ◌^◌, ◌≤◌, ◌<◌, ◌≡◌, refl, ap, ap₂, sym, ◌∙◌, arith, List, [], ◌∷◌,
  ◌++◌, length, take, true, false, if◌then◌else◌, length-replicate, length-append, ltb, leb,
  Bool-cases, lt→ltb, leb→le, inl, inr, copy_at, length-copy_at, slice-copy_at_self,
  slice-copy_at_before, slice-append, length-slice, take-slice,
}
use dws.Base.Int.{ℤ}
use dws.Log.Stream.{
  FixedBuffer, init, avail, write_current, add, append, reset, to_string, convert, convert_hex,
  max_numeric_size, format_integer, format_pointer,
}
use dws.Log.Stream.Decimal.{convert-Decimal, parse_hex-convert_hex}
use dws.Log.Stream.Digits.{abs, parse, parse_hex}

-- A buffer of `size` bytes with room for one more at least that holds `text`.
pub record Holds (size : ℕ) (text : List ℕ) (b : FixedBuffer) : Type 0 where
  pub whole : length b.array ≡ size
  pub room : b.cur < size
  pub content : to_string b ≡ text

pub length-to_string :
    {size : ℕ} {text : List ℕ} {b : FixedBuffer} → Holds size text b → length text ≡ b.cur
unfolding to_string
length-to_string {b = b} h = omega (
  arith,
  ap length h.content,
  length-slice 0 b.cur b.array (omega (arith, h.whole, h.room)),
  h.whole,
  h.room,
)

-- Bytes that fit leave the array as long as it is.
overlay :
    (xs : List ℕ) (i : ℕ) (src : List ℕ) (k : ℕ)
    → k ≡ i + length src
    → k ≤ length xs
    → take i xs ++ (src ++ drop k xs) ≡ copy_at xs i src
overlay [] zero [] zero e h = refl
overlay [] zero [] (suc k) e h = absurd (omega arith)
overlay [] zero (y ∷ ys) k e h = absurd (omega arith)
overlay [] (suc i) src k e h = absurd (omega arith)
overlay (x ∷ xs) zero [] zero e h = refl
overlay (x ∷ xs) zero [] (suc k) e h = absurd (omega arith)
overlay (x ∷ xs) zero (y ∷ ys) zero e h = absurd (omega arith)
overlay (x ∷ xs) zero (y ∷ ys) (suc k) e h =
    ap (◌∷◌ y) (overlay xs zero ys k (omega arith) (omega arith))
overlay (x ∷ xs) (suc i) src zero e h = absurd (omega arith)
overlay (x ∷ xs) (suc i) src (suc k) e h =
    ap (◌∷◌ x) (overlay xs i src k (omega arith) (omega arith))

write_current_fits :
    (b : FixedBuffer) (bytes : List ℕ)
    → b.cur + length bytes ≤ length b.array
    → write_current b bytes ≡ record b { array = copy_at b.array b.cur bytes }
unfolding write_current
write_current_fits b bytes h =
    ap (λ xs. record b { array = xs }) (overlay b.array b.cur bytes (b.cur + length bytes) refl h)

-- Bytes written at `cur_` of which a first part is counted in.
write_add :
    (size : ℕ) (text : List ℕ) (b : FixedBuffer) (bytes more : List ℕ)
    → Holds size text b
    → b.cur + length bytes + length more ≤ size
    → b.cur + length bytes < size
    → Holds size (text ++ bytes) (add (write_current b (bytes ++ more)) (length bytes))
unfolding add to_string
write_add size text b bytes more h k lt =
    rw (write_current_fits b (bytes ++ more) (omega (arith, h.whole, length-append bytes more)))
      (record {
        whole = length-copy_at b.array b.cur (bytes ++ more) ∙ h.whole;
        room = omega arith;
        content =
            slice-append (copy_at b.array b.cur (bytes ++ more)) 0 b.cur (length bytes) _ b.cur
              (omega arith) (omega arith)
            ∙ ap₂ ◌++◌
                (slice-copy_at_before b.array b.cur (bytes ++ more) 0 b.cur (omega arith)
                  ∙ h.content)
                (sym (
                    take-slice (copy_at b.array b.cur (bytes ++ more)) b.cur
                      (length (bytes ++ more)) (length bytes)
                      (omega (arith, length-append bytes more)))
                  ∙ ap (take (length bytes)) (
                      slice-copy_at_self b.array b.cur (bytes ++ more)
                        (omega (arith, h.whole, length-append bytes more)))
                  ∙ take-append_length bytes more (length bytes) refl);
      })

-- `append` adds the whole text where it fits with a byte to spare, and nothing otherwise. The
-- array keeps its length, which a write past its end would change.
pub append-Holds :
    (size : ℕ) (text : List ℕ) (b : FixedBuffer) (bytes : List ℕ)
    → Holds size text b
    → Holds size
        (if ltb (length text + length bytes) size then text ++ bytes else text)
        (append b bytes)
unfolding append avail
append-Holds size text b bytes h = elim (Bool-cases (ltb (length bytes) (length b.array - b.cur))) [
  | inl e ↦
      let t : ltb (length text + length bytes) size ≡ true =
        ground (arith, e, h.whole, length-to_string h) in
      let w =
        write_add size text b bytes [] h (ground (arith, e, h.whole))
          (ground (arith, e, h.whole)) in
      rw (e, t) (rw (append-nil bytes) at w)
  | inr e ↦
      let t : ltb (length text + length bytes) size ≡ false =
        ground (arith, e, h.whole, h.room, length-to_string h) in
      rw (e, t) h
]

-- A text that fits.
pub append_fits :
    (size : ℕ) (text : List ℕ) (b : FixedBuffer) (bytes : List ℕ)
    → Holds size text b
    → length text + length bytes < size
    → Holds size (text ++ bytes) (append b bytes)
append_fits size text b bytes h lt =
    let p = append-Holds size text b bytes h in
    rw (lt→ltb (length text + length bytes) size lt) at p

pub avail-Holds :
    {size : ℕ} {text : List ℕ} {b : FixedBuffer} → Holds size text b → avail b ≡ size - length text
unfolding avail
avail-Holds h = omega (arith, h.whole, length-to_string h)

pub init-Holds : (size : ℕ) → 0 < size → Holds size [] (init size)
unfolding init to_string
init-Holds size h = record { whole = length-replicate size 0; room = h; content = refl }

pub reset-Holds :
    (size : ℕ) (text : List ℕ) (b : FixedBuffer) → Holds size text b → Holds size [] (reset b)
unfolding reset to_string
reset-Holds size text b h = record { whole = h.whole; room = omega (arith, h.room); content = refl }

-- `<<` of an integer of 64 bits or fewer appends its decimal text where at least 48 bytes are left,
-- and leaves the buffer as it was otherwise; the terminating 0 stays inside the array too.
pub format_integer_lem :
    (size : ℕ) (text : List ℕ) (b : FixedBuffer) (v : ℤ)
    → Holds size text b
    → abs v < 2 ^ 64
    → (t : List ℕ) × (parse t ≡ v)
      × Holds size (if leb (length text + 48) size then text ++ t else text) (format_integer b v)
unfolding format_integer
format_integer_lem size text b v h k =
    let d = convert-Decimal v k in
    let e : leb max_numeric_size (avail b) ≡ leb (length text + 48) size =
      ground (arith, avail-Holds h, h.room, length-to_string h) in
    elim (Bool-cases (leb (length text + 48) size)) [
      | inl f ↦
          let fits = leb→le (length text + 48) size f in
          (
            convert v,
            d.reads,
            rw (e, f)
                (write_add size text b (convert v) (0 ∷ []) h
                  (omega (arith, d.short, fits, length-to_string h))
                  (omega (arith, d.short, fits, length-to_string h))),
          )
      | inr f ↦ (convert v, d.reads, rw (e, f) h)
    ]

-- A number that fits.
pub format_integer_fits :
    (size : ℕ) (text : List ℕ) (b : FixedBuffer) (v : ℤ)
    → Holds size text b
    → abs v < 2 ^ 64
    → length text + 48 ≤ size
    → Holds size (text ++ convert v) (format_integer b v)
unfolding format_integer
format_integer_fits size text b v h k fits =
    let d = convert-Decimal v k in
    let e : leb max_numeric_size (avail b) ≡ true =
      ground (arith, avail-Holds h, h.room, length-to_string h) in
    rw e (
      write_add size text b (convert v) (0 ∷ []) h
        (omega (arith, d.short, fits, length-to_string h))
        (omega (arith, d.short, fits, length-to_string h)))

-- `<<` of an address appends `0x` and its hexadecimal text under the same condition.
pub format_pointer_lem :
    (size : ℕ) (text : List ℕ) (b : FixedBuffer) (v : ℕ)
    → Holds size text b
    → v < 2 ^ 64
    → (t : List ℕ) × (parse_hex t ≡ v)
      × Holds size
          (if leb (length text + 48) size then text ++ 48 ∷ 120 ∷ t else text)
          (format_pointer b v)
unfolding format_pointer
format_pointer_lem size text b v h k =
    let d = parse_hex-convert_hex v k in
    let e : leb max_numeric_size (avail b) ≡ leb (length text + 48) size =
      ground (arith, avail-Holds h, h.room, length-to_string h) in
    let n : length (convert_hex v) + 2 ≡ length (48 ∷ 120 ∷ convert_hex v) = omega arith in
    elim (Bool-cases (leb (length text + 48) size)) [
      | inl f ↦
          let fits = leb→le (length text + 48) size f in
          (
            convert_hex v,
            d.0,
            rw (e, f, n)
                (write_add size text b (48 ∷ 120 ∷ convert_hex v) (0 ∷ []) h
                  (omega (arith, d.1, fits, length-to_string h))
                  (omega (arith, d.1, fits, length-to_string h))),
          )
      | inr f ↦ (convert_hex v, d.0, rw (e, f) h)
    ]
