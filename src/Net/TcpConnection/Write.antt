-- ===== src/Net/TcpConnection/Write.antt =====
-- `handleWrite`: the output buffer drains.
use dws.Base.{
  Returns, ℕ, zero, suc, ◌-◌, ◌≤◌, ◌<◌, ◌≡◌, ap, sym, ◌∙◌, arith, List, [], ◌∷◌, ◌++◌, length, drop,
  true, false, if◌then◌else◌, ◌==◌, length-drop, ltb, Bool-cases, inl, inr, ok,
}
use dws.Net.TcpConnection.{
  TcpConnection, Effect, queue_write_complete, shutdown_write, wrote, is_disconnecting, after_drain,
  finish_drain, handle_write,
}
use dws.Net.Channel.{is_writing, disable_writing}
use dws.Net.Buffer.{Buffer, readable_bytes, to_string_piece, retrieve}
use dws.Net.Buffer.Inv.{IsValid, Holds, length-contents}
use dws.Net.Buffer.Retrieve.{retrieve_lem}

drained : TcpConnection → List Effect
drained c =
    (if c.write_complete_callback then queue_write_complete ∷ [] else [])
    ++ (if is_disconnecting c.state then shutdown_write ∷ [] else [])

finish_drain_lem :
    (c : TcpConnection) (b : Buffer)
    → finish_drain c b
      ≡ ok (record c { output_buffer = b; channel = disable_writing c.channel }, drained c)
unfolding finish_drain drained
finish_drain_lem c b = ground arith

handle_write_step :
    (c : TcpConnection) (n : ℕ)
    → is_writing c.channel ≡ true
    → handle_write c (wrote (suc n)) ≡ after_drain c (suc n)
unfolding handle_write
handle_write_step c n w = rw w

after_drain_more :
    (c : TcpConnection) (n : ℕ) (b : Buffer)
    → retrieve c.output_buffer n ≡ ok b
    → (readable_bytes b == 0) ≡ false
    → after_drain c n ≡ ok (record c { output_buffer = b }, [])
unfolding after_drain
after_drain_more c n b e m = rw (e, m)

after_drain_empty :
    (c : TcpConnection) (n : ℕ) (b : Buffer)
    → retrieve c.output_buffer n ≡ ok b
    → (readable_bytes b == 0) ≡ true
    → after_drain c n ≡ finish_drain c b
unfolding after_drain
after_drain_empty c n b e m = rw (e, m)

-- With the socket writable and `n` bytes written, at least one and no more than are readable,
-- `handleWrite` drops those from the output buffer. When that empties it, writing is disabled, the
-- write-complete callback is queued if it is set, and a connection that is being shut down is shut
-- down.
pub handle_write_lem :
    (c : TcpConnection) (n : ℕ)
    → IsValid c.output_buffer
    → is_writing c.channel ≡ true
    → 0 < n
    → n ≤ readable_bytes c.output_buffer
    → Returns (handle_write c (wrote n)) (λ r.
      Holds (drop n (to_string_piece c.output_buffer)) r.0.output_buffer
      × (is_writing r.0.channel ≡ ltb n (readable_bytes c.output_buffer))
      × (r.1 ≡ (
          if ltb n (readable_bytes c.output_buffer)
          then []
          else (if c.write_complete_callback then queue_write_complete ∷ [] else [])
            ++ (if is_disconnecting c.state then shutdown_write ∷ [] else []))))
handle_write_lem c zero v w h k = absurd (omega arith)
handle_write_lem c (suc n) v w h k =
    let (b, e, p) = retrieve_lem (suc n) v k in
    let left : readable_bytes b ≡ readable_bytes c.output_buffer - suc n = omega (
      arith,
      length-contents p.valid,
      ap length p.content,
      length-drop (suc n) (to_string_piece c.output_buffer),
      length-contents v,
    ) in
    elim (Bool-cases (ltb (suc n) (readable_bytes c.output_buffer))) [
      | inl some_left ↦
          let more : (readable_bytes b == 0) ≡ false = ground (arith, left, some_left) in
          (
            (record c { output_buffer = b }, []),
            handle_write_step c n w ∙ after_drain_more c (suc n) b e more,
            (p, w ∙ sym some_left, rw some_left),
          )
      | inr none_left ↦
          let empty : (readable_bytes b == 0) ≡ true = ground (arith, left, none_left) in
          (
            (record c { output_buffer = b; channel = disable_writing c.channel }, drained c),
            handle_write_step c n w ∙ after_drain_empty c (suc n) b e empty ∙ finish_drain_lem c b,
            (p, (unfold disable_writing in rw none_left), (unfold drained in rw none_left)),
          )
    ]
