-- ===== src/Log/File/Roll.antt =====
-- LogFile (src/base/src/LogFile.cc): when the file is rolled and when it is flushed.
use dws.Log.File.{LogFile, flush, roll_file, check, after_append, open_file, period_of}
use dws.Base.{
  ℕ, ◌+◌, ◌-◌, ◌≤◌, ◌<◌, ◌≡◌, arith, [], ◌∷◌, length, ◌&&◌, ◌||◌, not, if◌then◌else◌, ◌==◌,
  length-append, ltb, leb, Bool-cases, inl, inr,
}

-- append_unlocked once the line is in the file, where the clock of rollFile is past the last roll. The
-- file that is open then is not above the roll size. The old one was closed exactly if it was above
-- the size, or a check was due and found another day; the check is due at every check_every_n-th line
-- that does not go above the size. Where it is due, finds the same day and comes after the flush
-- interval, all of the file has been flushed.
pub after_append-rolls :
    (now now' : ℕ) (l : LogFile)
    → l.last_roll < now'
    → (let r = after_append now now' l in
        let full = ltb l.roll_size l.file.written_bytes in
        let due = leb l.check_every_n (l.count + 1) in
        let rolls = full || due && not (period_of now == l.start_of_period) in
        (r.file.written_bytes ≤ l.roll_size)
        × (length r.closed ≡ (if rolls then length l.closed + 1 else length l.closed))
        × (r.last_roll ≡ (if rolls then now' else l.last_roll))
        × (r.start_of_period ≡ (if rolls then period_of now' else l.start_of_period))
        × (r.count ≡ (if full then l.count else if due then 0 else l.count + 1))
        × ((if not rolls && due && ltb l.flush_interval (now - l.last_flush)
              then r.file.flushed
              else length r.file.content)
            ≡ length r.file.content))
unfolding after_append check roll_file flush open_file
after_append-rolls now now' l later =
    let closes = length-append l.closed (flush l.file ∷ []) in
    elim (Bool-cases (ltb l.roll_size l.file.written_bytes)) [
      | inl full ↦ ground (arith, closes)
      | inr room ↦ elim (Bool-cases (leb l.check_every_n (l.count + 1))) [
        | inr early ↦ ground arith
        | inl due ↦ elim (Bool-cases (period_of now == l.start_of_period)) [
          | inl today ↦ ground arith
          | inr other ↦ ground (arith, closes)
        ]
      ]
    ]
