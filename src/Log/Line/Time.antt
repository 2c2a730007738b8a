-- ===== src/Log/Line/Time.antt =====
-- The time in front of a line, and the cache of its seconds.
use mathlib.Core.List.{append-nil}
use native.Mathlib.Omega.{pow_step}
use dws.Base.{
  ℕ, zero, suc, ◌-◌, ◌/◌, ◌^◌, ◌≤◌, ◌<◌, ◌≡◌, ◌≢◌, refl, ap, sym, ◌∙◌, arith, [], ◌∷◌, ◌++◌, length,
  Option, true, false, ◌==◌, ==_iff, length-replicate, length-append, replicate, reverse,
  Bool-cases, inl, inr, ok, ok_inj,
}
use dws.Base.Int.{ℤ, pos, negsuc}
use dws.Log.Stream.{is_zero, is_negative, convert, convert_turns, convert_loop}
use dws.Log.Stream.Digits.{length-reverse}
use dws.Time.DateTime.{DateTime}
use dws.Time.Zone.{Data}
use dws.Log.Line.{
  pad_zero, pad_blank, time_text, Cache, no_cache, date_time, is_equal_ℤ, refresh, fraction,
  fraction_length,
}

convert_loop-length : (d fuel n : ℕ) → n < 10 ^ suc d → length (convert_loop fuel (pos n)) ≤ suc d
unfolding convert_loop is_zero
convert_loop-length d zero n h = omega arith
convert_loop-length zero (suc fuel) n h =
    let e : (n / 10 == 0) ≡ true = ground arith in rw e (omega arith)
convert_loop-length (suc d) (suc fuel) n h =
    let smaller : n / 10 < 10 ^ suc d = omega (arith, pow_step 10 (suc d)) in
    elim (Bool-cases (n / 10 == 0)) [
      | inl e ↦ rw e (omega arith)
      | inr e ↦ rw e (omega (arith, convert_loop-length d fuel (n / 10) smaller))
    ]

convert-length : (d n : ℕ) → n < 10 ^ suc d → length (convert (pos n)) ≤ suc d
unfolding convert is_negative
convert-length d n h =
    let l = convert_loop convert_turns (pos n) in
    omega (
      arith,
      ap (λ t. length (reverse t)) (append-nil l),
      length-reverse l,
      convert_loop-length d convert_turns n h,
    )

pad_zero-length : (d n : ℕ) → n < 10 ^ suc d → length (pad_zero (suc d) (pos n)) ≡ suc d
unfolding pad_zero
pad_zero-length d n h =
    let t = convert (pos n) in
    omega (
      arith,
      length-append (replicate (suc d - length t) 48) t,
      length-replicate {A = ℕ} (suc d - length t) 48,
      convert-length d n h,
    )

pad_blank-length : (d n : ℕ) → n < 10 ^ suc d → length (pad_blank (suc d) (pos n)) ≡ suc d
unfolding pad_blank
pad_blank-length d n h =
    let t = convert (pos n) in
    omega (
      arith,
      length-append (replicate (suc d - length t) 32) t,
      length-replicate {A = ℕ} (suc d - length t) 32,
      convert-length d n h,
    )

-- A date with a year of at most four digits, and the other fields of at most two.
pub record IsShort (dt : DateTime) : Type 0 where
  pub year : (n : ℕ) × (dt.year ≡ pos n) × (n < 10000)
  pub month : (n : ℕ) × (dt.month ≡ pos n) × (n < 100)
  pub day : (n : ℕ) × (dt.day ≡ pos n) × (n < 100)
  pub hour : (n : ℕ) × (dt.hour ≡ pos n) × (n < 100)
  pub minute : (n : ℕ) × (dt.minute ≡ pos n) × (n < 100)
  pub second : (n : ℕ) × (dt.second ≡ pos n) × (n < 100)

two_digits : (v : ℤ) → (n : ℕ) × (v ≡ pos n) × (n < 100) → length (pad_zero 2 v) ≡ 2
two_digits v (n, e, h) = rw e (pad_zero-length 1 n h)

pub time_text-length : (dt : DateTime) → IsShort dt → length (time_text dt) ≡ 17
unfolding time_text
time_text-length dt s =
    let (y, ye, yh) = s.year in
    let a : length (pad_blank 4 dt.year) ≡ 4 = rw ye (pad_blank-length 3 y yh) in
    let sec = pad_zero 2 dt.second in
    let min = pad_zero 2 dt.minute ++ 58 ∷ sec in
    let hour = pad_zero 2 dt.hour ++ 58 ∷ min in
    let day = pad_zero 2 dt.day ++ 32 ∷ hour in
    let month = pad_zero 2 dt.month ++ day in
    omega (
      arith,
      a,
      length-append (pad_blank 4 dt.year) month,
      length-append (pad_zero 2 dt.month) day,
      length-append (pad_zero 2 dt.day) (32 ∷ hour),
      length-append (pad_zero 2 dt.hour) (58 ∷ min),
      length-append (pad_zero 2 dt.minute) (58 ∷ sec),
      two_digits dt.month s.month,
      two_digits dt.day s.day,
      two_digits dt.hour s.hour,
      two_digits dt.minute s.minute,
      two_digits dt.second s.second,
    )

pub fraction-length :
    (zoned : _) (n : ℕ) → n < 1000000 → length (fraction zoned (pos n)) ≡ fraction_length zoned
unfolding fraction fraction_length
fraction-length true n h =
    omega (arith, pad_zero-length 5 n h, length-append (pad_zero 6 (pos n)) (32 ∷ []))
fraction-length false n h =
    omega (arith, pad_zero-length 5 n h, length-append (pad_zero 6 (pos n)) (90 ∷ 32 ∷ []))

-- The cache holds the time of its second, in this zone.
unfoldable pub IsFresh : Option Data → Cache → Type 0
IsFresh tz c =
    (dt : DateTime)
    → c.last_second ≢ pos 0
    → date_time tz c.last_second ≡ ok dt
    → c.time ≡ time_text dt

pub no_cache-IsFresh : (tz : Option Data) → IsFresh tz no_cache
unfolding IsFresh
no_cache-IsFresh tz dt h = absurd (h refl)

is_equal_ℤ_lem : (a b : ℤ) → is_equal_ℤ a b ≡ true → a ≡ b
unfolding is_equal_ℤ
is_equal_ℤ_lem (pos a) (pos b) h = ap pos ((==_iff a b).0 h)
is_equal_ℤ_lem (pos a) (negsuc b) h = cc
is_equal_ℤ_lem (negsuc a) (pos b) h = cc
is_equal_ℤ_lem (negsuc a) (negsuc b) h = ap negsuc ((==_iff a b).0 h)

-- From the second second on, `refresh` puts the time of the second in the cache.
pos_apart : (s : ℕ) → 0 < s → pos s ≢ pos 0
pos_apart zero h e = absurd (omega (arith, h))
pos_apart (suc s) h e = cc

pub refresh_lem :
    (tz : Option Data) (s : ℕ) (dt : DateTime) (c : Cache)
    → IsFresh tz c
    → 0 < s
    → date_time tz (pos s) ≡ ok dt
    → IsShort dt
    → (c' : Cache) × IsFresh tz c' × (c'.time ≡ time_text dt) × (refresh tz (pos s) c ≡ ok c')
unfolding refresh IsFresh
refresh_lem tz s dt c fresh late e short = elim (Bool-cases (is_equal_ℤ (pos s) c.last_second)) [
  | inl f ↦
      let same = is_equal_ℤ_lem (pos s) c.last_second f in
      (c, fresh, fresh dt (λ z. pos_apart s late (same ∙ z)) (rw same at e), rw f refl)
  | inr f ↦
      let c' : Cache = record { last_second = pos s; time = time_text dt } in
      (
        c',
        λ dt' n e'. ap time_text (ok_inj (sym e ∙ e')),
        refl,
        rw (f, e, time_text-length dt short) refl,
      )
]
