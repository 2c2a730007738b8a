-- ===== src/Net/TcpConnection/Send.antt =====
-- `sendInLoop`: what becomes of the part of a message that write(2) does not take.
use dws.Base.{
  Returns, ℕ, ◌+◌, ◌^◌, ◌≤◌, ◌<◌, ◌≡◌, refl, ap, arith, List, [], ◌∷◌, ◌++◌, length, drop, true,
  false, ◌&&◌, not, if◌then◌else◌, ◌==◌, length-drop, ltb, leb, Bool-cases, inl, inr, ◌⊎◌, add_size,
  sub_size, max_size, ok,
}
use dws.Net.TcpConnection.{
  TcpConnection, Effect, queue_write_complete, queue_high_water_mark, WriteResult, wrote,
  write_failed, is_fault, keep_rest, after_write, is_disconnected, send_in_loop,
}
use dws.Net.Channel.{is_writing, enable_writing}
use dws.Net.Buffer.{readable_bytes, to_string_piece}
use dws.Net.Buffer.Inv.{IsValid, Holds}
use dws.Net.Buffer.Append.{append_lem}

-- An outcome of write(2) for a message of a length.
abbrev pub Fits : ℕ → WriteResult → Type 0
Fits len (wrote n) = n ≤ len
Fits len (write_failed e) = Unit {0}

-- No message brings the buffer up to the high-water mark, or nobody asked to be told.
abbrev pub Below : TcpConnection → ℕ → Type 0
Below c len =
    (c.high_water_mark_callback ≡ false)
    ⊎ (readable_bytes c.output_buffer + len < c.high_water_mark)

keep_rest-Below :
    (c : TcpConnection) (rest : List ℕ) (effects : List Effect)
    → readable_bytes c.output_buffer + length rest < 2 ^ 64
    → Below c (length rest)
    → keep_rest c rest effects ≡ ok (c, effects)
unfolding keep_rest
keep_rest-Below c rest effects h b = ground arith

direct_effects : TcpConnection → List ℕ → ℕ → List Effect
direct_effects c message n =
    if sub_size (length message) n == 0 && c.write_complete_callback
    then queue_write_complete ∷ []
    else []

after_write-Below :
    (c : TcpConnection) (message : List ℕ) (w : WriteResult)
    → Fits (length message) w
    → readable_bytes c.output_buffer + length message < 2 ^ 64
    → Below c (length message)
    → Returns (after_write c message w) (λ r. r.0 ≡ c)
unfolding after_write direct_effects
after_write-Below c message (wrote n) f h b = (
  (c, direct_effects c message n),
  rw fits (
      keep_rest-Below c (drop n message) (direct_effects c message n)
        (omega (arith, length-drop n message)) (still b)),
  refl,
)
  where
    fits : leb (sub_size (length message) n) (length message) ≡ true
    fits = ground arith

    still : Below c (length message) → Below c (length (drop n message))
    still (inl e) = inl e
    still (inr l) = inr (omega (arith, length-drop n message))
after_write-Below c message (write_failed e) f h b = elim (Bool-cases (is_fault e)) [
  | inl fault ↦ ((c, []), rw fault, refl)
  | inr other ↦ ((c, []), rw other (keep_rest-Below c message [] h b), refl)
]

-- Where a message does not bring the output buffer up to the high-water mark, or no high-water
-- callback is set, `sendInLoop` returns and leaves the connection as it was, whatever write(2) took
-- of the message: the rest is neither buffered nor waited for.
pub send_in_loop-Below :
    (c : TcpConnection) (message : List ℕ) (w : WriteResult)
    → Fits (length message) w
    → readable_bytes c.output_buffer + length message < 2 ^ 64
    → Below c (length message)
    → Returns (send_in_loop c message w) (λ r. r.0 ≡ c)
unfolding send_in_loop
send_in_loop-Below c message w f h b = elim (Bool-cases (is_disconnected c.state)) [
  | inl gone ↦ ((c, []), rw gone, refl)
  | inr here ↦
      elim (Bool-cases (not (is_writing c.channel) && readable_bytes c.output_buffer == 0)) [
        | inl direct ↦
            let (r, e, k) = after_write-Below c message w f h b in (r, rw (here, direct) e, k)
        | inr waits ↦ ((c, []), rw (here, waits) (keep_rest-Below c message [] h b), refl)
      ]
]

-- Where the rest of a message brings the buffer up to the mark, it is buffered behind what waits
-- there, writing is enabled, and the callback is queued with the new size.
pub keep_rest-above :
    (c : TcpConnection) (rest : List ℕ) (effects : List Effect)
    → IsValid c.output_buffer
    → c.output_buffer.writer_index + length rest ≤ max_size
    → c.high_water_mark_callback ≡ true
    → 0 < length rest
    → c.high_water_mark ≤ readable_bytes c.output_buffer + length rest
    → readable_bytes c.output_buffer < c.high_water_mark
    → Returns (keep_rest c rest effects) (λ r.
      Holds (to_string_piece c.output_buffer ++ rest) r.0.output_buffer
      × (is_writing r.0.channel ≡ true)
      × (r.1
          ≡ effects ++ queue_high_water_mark (readable_bytes c.output_buffer + length rest) ∷ []))
unfolding keep_rest
keep_rest-above c rest effects v h k l m n =
    let (b, e, p) = append_lem rest v h in
    (
      (
        record c {
          output_buffer = b;
          channel = if is_writing c.channel then c.channel else enable_writing c.channel;
        },
        effects
            ++ queue_high_water_mark (add_size (readable_bytes c.output_buffer) (length rest)) ∷ [],
      ),
      rw (wanted, e),
      (p, (ground arith), ap (λ n. effects ++ queue_high_water_mark n ∷ []) (omega arith)),
    )
  where
    wanted :
        (ltb 0 (length rest)
          && (leb c.high_water_mark (add_size (readable_bytes c.output_buffer) (length rest))
              && ltb (readable_bytes c.output_buffer) c.high_water_mark
              && c.high_water_mark_callback))
        ≡ true
    wanted = ground arith
