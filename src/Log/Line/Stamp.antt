-- ===== src/Log/Line/Stamp.antt =====
-- What formatTime puts in front of a line.
use dws.Base.{
  ℕ, Bool, ◌+◌, ◌/◌, ◌%◌, ◌≤◌, ◌<◌, ◌≡◌, refl, arith, List, [], ◌++◌, length, Option, true, false,
  ==_iff, length-append, Result, ok,
}
use dws.Base.Int.{pos}
use dws.Log.Stream.{FixedBuffer, append}
use dws.Log.Stream.Text.{Holds, append_fits}
use dws.Time.DateTime.{DateTime}
use dws.Time.Zone.{Data}
use dws.Log.Line.{
  small_buffer, time_text, Cache, date_time, append_known, fraction, fraction_length, is_zoned,
  format_time,
}
use dws.Log.Line.Time.{IsShort, IsFresh, time_text-length, fraction-length, refresh_lem}

-- A buffer of a stream that holds `text`, of `n` bytes.
pub record Filled (n : ℕ) (text : List ℕ) (b : FixedBuffer) : Type 0 where
  pub held : Holds small_buffer text b
  pub size : length text ≡ n

-- A text of `k` bytes that fits.
pub append-Filled :
    (n k : ℕ) (text : List ℕ) (b : FixedBuffer) (bytes : List ℕ)
    → Filled n text b
    → length bytes ≡ k
    → n + k < 4000
    → Filled (n + k) (text ++ bytes) (append b bytes)
append-Filled n k text b bytes f e h = record {
  held = append_fits small_buffer text b bytes f.held (omega (arith, f.size, e));
  size = omega (arith, length-append text bytes, f.size, e);
}

-- What stands in front of a line of the time `now` in microseconds.
unfoldable pub stamp : Option Data → DateTime → ℕ → List ℕ
stamp tz dt now = time_text dt ++ fraction (is_zoned tz) (pos (now % 1000000))

pub record IsStamped (tz : Option Data) (text : List ℕ) (call : Result (Cache × FixedBuffer))
    : Type 0 where
  pub cache : Cache
  pub buffer : FixedBuffer
  pub fresh : IsFresh tz cache
  pub filled : Filled (17 + fraction_length (is_zoned tz)) text buffer
  pub returns : call ≡ ok (cache, buffer)

pub append_known_lem :
    (str : List ℕ) (n : ℕ) (b : FixedBuffer)
    → length str ≡ n
    → append_known str n b ≡ ok (append b str)
unfolding append_known
append_known_lem str n b h = rw ((==_iff (length str) n).1 h) refl

pub fraction_length-small : (zoned : Bool) → fraction_length zoned ≤ 9
unfolding fraction_length
fraction_length-small true = omega arith
fraction_length-small false = omega arith

-- `formatTime` on an empty buffer.
pub format_time_lem :
    (tz : Option Data) (now : ℕ) (dt : DateTime) (c : Cache) (b : FixedBuffer)
    → IsFresh tz c
    → 1000000 ≤ now
    → date_time tz (pos (now / 1000000)) ≡ ok dt
    → IsShort dt
    → Filled 0 [] b
    → IsStamped tz (stamp tz dt now) (format_time tz (pos now) c b)
unfolding format_time stamp
format_time_lem tz now dt c b fresh late e short f =
    let z = is_zoned tz in
    let us = fraction z (pos (now % 1000000)) in
    let us_length : length us ≡ fraction_length z =
      fraction-length z (now % 1000000) (omega arith) in
    let t_length = time_text-length dt short in
    let (c', fresh', t, r) = refresh_lem tz (now / 1000000) dt c fresh (omega arith) e short in
    let f₁ = append-Filled 0 17 [] b (time_text dt) f t_length (omega arith) in
    let b₁ = append b (time_text dt) in
    let f₂ =
      append-Filled 17 (fraction_length z) (time_text dt) b₁ us f₁ us_length
        (omega (arith, fraction_length-small z)) in
    let test = (==_iff (length us) (fraction_length z)).1 us_length in
    record {
      cache = c';
      buffer = append b₁ us;
      fresh = fresh';
      filled = f₂;
      returns = rw (r, test, t, append_known_lem (time_text dt) 17 b t_length) refl;
    }
