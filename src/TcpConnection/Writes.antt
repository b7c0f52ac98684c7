-- ===== src/TcpConnection/Writes.antt =====
-- sevent/net/TcpConnection.cpp: the calls that write `outputBuf` to the socket.
use sevent.Base.{
  ℕ, ◌-◌, ◌≤◌, ◌≡◌, refl, sym, ap, ◌∙◌, inl, inr, not, ◌&&◌, some, List, [], arith, length, take,
  ok, ltb, ◌==◌, Bool-cases, append-nil,
}
use sevent.Base.Memory.{slice}
use sevent.Buffer.{Buffer, prepends, readable_bytes, write_fd}
use sevent.Buffer.Contents.{IsValid}
use sevent.Buffer.Reading.{retrieve-front}
use sevent.Buffer.Descriptors.{write_fd_lem}
use sevent.TcpConnection.{
  Conn, disconnected, same_state, WriteAnswer, wrote, failed, Effect, handle_close, update,
}
use sevent.TcpConnection.Sending.{
  send_output_buf_in_loop, handle_write, on_write_event, taken, flush, write_output, want_write,
}
use sevent.TcpConnection.Outcomes.{IsGood, Fits}
use sevent.TcpConnection.Stream.{sent_bytes, waiting, Streams}
use sevent.TcpConnection.Steps.{Answers}
use sevent.TcpConnection.Quiet.{Steps, Quiet-Steps, handle_close-Quiet}

taken-waiting : (c : Conn) (n : ℕ) → IsValid c.output_buf → taken c n ≡ take n (waiting c)
taken-waiting c n v =
    let e : readable_bytes c.output_buf ≡ c.output_buf.write_index - c.output_buf.read_index =
      omega arith in
    ap (λ k. take n (slice c.output_buf.bytes c.output_buf.read_index k)) e

write_fd-front :
    (b : Buffer) (n : ℕ)
    → IsValid b
    → prepends ≤ b.read_index
    → (prepends ≤ (write_fd b (some n)).1.read_index)
      × (length (write_fd b (some n)).1.bytes ≡ length b.bytes)
unfolding write_fd
write_fd-front b n v h = ground (arith, retrieve-front b n)

-- After `outputBuf.writeFd`, whatever else changes.
written-Streams :
    {c : Conn} (n k : ℕ) (c' : Conn) (es : List Effect)
    → IsGood c
    → Fits n c
    → k ≤ readable_bytes c.output_buf
    → c'.output_buf ≡ (write_fd c.output_buf (some k)).1
    → c'.input_buf ≡ c.input_buf
    → sent_bytes es ≡ taken c k
    → Streams n c [] c' es
written-Streams {c} n k c' es g fits h out inp sent =
    let kept = write_fd_lem k g.out_valid h in
    let front = write_fd-front c.output_buf k g.out_valid g.out_front in
    record {
      good = record {
        out_valid = rw out kept.0;
        out_front = rw out front.0;
        in_valid = rw inp g.in_valid;
        in_front = rw inp g.in_front;
      };
      fits = (rw (out, front.1) fits.0, rw inp fits.1);
      stream =
          rw (sent, out, taken-waiting c k g.out_valid) (kept.1 ∙ sym (append-nil (waiting c)));
    }

on_write_event-Steps :
    {c : Conn} (n : ℕ) (answer : WriteAnswer)
    → IsGood c
    → Fits n c
    → Answers (readable_bytes c.output_buf) answer
    → Steps n c [] (ok (on_write_event c answer))
unfolding on_write_event update
on_write_event-Steps {c} n (failed e) g fits h =
    Quiet-Steps n (handle_close c) g fits (handle_close-Quiet c)
on_write_event-Steps {c} n (wrote k) g fits h = elim (Bool-cases (k == 0)) [
  | inl z ↦ rw z (Quiet-Steps n (c, []) g fits (refl, refl, refl))
  | inr more ↦ (
    (on_write_event c (wrote k)).0,
    (on_write_event c (wrote k)).1,
    refl,
    written-Streams n k (on_write_event c (wrote k)).0 (on_write_event c (wrote k)).1 g fits h
        (ground arith) (ground arith) (ground (arith, append-nil (taken c k))),
  )
]

pub handle_write-Steps :
    {c : Conn} (n : ℕ) (answer : WriteAnswer)
    → IsGood c
    → Fits n c
    → Answers (readable_bytes c.output_buf) answer
    → Steps n c [] (ok (handle_write c answer))
unfolding handle_write
handle_write-Steps {c} n answer g fits h = elim (Bool-cases (same_state c.state disconnected)) [
  | inl gone ↦ rw gone (Quiet-Steps n (c, []) g fits (refl, refl, refl))
  | inr here ↦ elim (Bool-cases c.events.write) [
    | inl on ↦ simp (here, on) (on_write_event-Steps n answer g fits h)
    | inr off ↦ simp (here, off) (Quiet-Steps n (c, []) g fits (refl, refl, refl))
  ]
]

pub send_output-Steps :
    {c : Conn} (n : ℕ) (answer : WriteAnswer)
    → IsGood c
    → Fits n c
    → Answers (readable_bytes c.output_buf) answer
    → Steps n c [] (ok (send_output_buf_in_loop c answer))
unfolding send_output_buf_in_loop flush write_output want_write update
send_output-Steps {c} n (failed e) g fits h =
    Quiet-Steps n (send_output_buf_in_loop c (failed e)) g fits (ground arith)
send_output-Steps {c} n (wrote k) g fits h =
    elim (Bool-cases (
      not (same_state c.state disconnected)
      && (not c.events.write && ltb 0 (readable_bytes c.output_buf)))) [
        | inr idle ↦ Quiet-Steps n (send_output_buf_in_loop c (wrote k)) g fits (ground arith)
        | inl direct ↦ (
          (send_output_buf_in_loop c (wrote k)).0,
          (send_output_buf_in_loop c (wrote k)).1,
          refl,
          written-Streams n k (send_output_buf_in_loop c (wrote k)).0
              (send_output_buf_in_loop c (wrote k)).1 g fits h (ground arith) (ground arith)
              (ground (arith, append-nil (taken c k))),
        )
      ]
