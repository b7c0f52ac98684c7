-- ===== src/TcpConnection/Moved.antt =====
-- sevent/net/TcpConnection.cpp: `sendInLoopBuf`, which takes the bytes of a buffer.
use sevent.Base.{
  ℕ, ◌+◌, ◌-◌, ◌≤◌, ◌≡◌, refl, sym, subst, ◌∙◌, inl, inr, Bool, true, false, not, ◌&&◌, List, [],
  ◌++◌, arith, length, drop, ok, ◌==◌, if◌then◌else◌, Bool-cases, append-nil, ◌>>=◌,
}
use sevent.Base.Memory.{max_size, load, load_lem}
use sevent.Buffer.{Buffer, prepends, readable_bytes, retrieve, retrieve_all, swap}
use sevent.Buffer.Contents.{IsValid, contents, length-contents}
use sevent.Buffer.Appending.{append-Appended}
use sevent.Buffer.Reading.{contents-retrieve, retrieve-front}
use sevent.TcpConnection.{Conn, disconnected, same_state, WriteAnswer, wrote, failed, Effect}
use sevent.TcpConnection.Sending.{
  Attempt, attempt, try_write, take_buf, keep_buf, forget_rest, send_in_loop_buf,
}
use sevent.TcpConnection.Outcomes.{IsGood, Fits, kept, kept_effects, keeps, want_write_lem}
use sevent.TcpConnection.Stream.{
  sent_bytes, waiting, waiting-empty, handed, finished-stream, kept-stream,
}
use sevent.TcpConnection.Steps.{Answers}
use sevent.TcpConnection.Quiet.{Steps}

-- A buffer of the user is valid, and nobody prepended to it.
pub record IsOwn (b : Buffer) : Type 0 where
  pub valid : IsValid b
  pub front : prepends ≤ b.read_index

load-contents :
    (b : Buffer) → IsValid b → load b.bytes b.read_index (readable_bytes b) ≡ ok (contents b)
load-contents b v =
    let n : readable_bytes b ≡ b.write_index - b.read_index = omega arith in
    rw n (
      load_lem b.bytes b.read_index (b.write_index - b.read_index)
        (omega (arith, v.ordered, v.within)))

-- What `outputBuf` is after a buffer was swapped in or appended.
pub record Moved (n : ℕ) (c : Conn) (xs : List ℕ) (out : Buffer) : Type 0 where
  pub own : IsOwn out
  pub bounded : length out.bytes + n ≤ max_size
  pub added : contents out ≡ waiting c ++ xs

take_buf_lem :
    {c : Conn} (n : ℕ) (buf : Buffer)
    → IsGood c
    → IsOwn buf
    → length c.output_buf.bytes + (length buf.bytes + n) ≤ max_size
    → (out rest : Buffer) × (take_buf c.output_buf buf ≡ ok (out, rest))
      × Moved n c (contents buf) out
unfolding take_buf swap
take_buf_lem {c} n buf g b fits = elim (Bool-cases (readable_bytes c.output_buf == 0)) [
  | inl empty ↦ (
    buf,
    c.output_buf,
    rw empty refl,
    record { own = b; bounded = omega arith; added = rw (waiting-empty c g.out_valid empty) refl },
  )
  | inr more ↦
      let size : length (contents buf) ≤ length buf.bytes =
        omega (arith, length-contents b.valid, b.valid.within) in
      let (out, done, a) =
        append-Appended {b = c.output_buf} (contents buf) g.out_valid (inr (omega arith))
          (omega (arith, size, g.out_valid.within)) in
      (
        out,
        retrieve_all buf,
        rw (more, load-contents buf b.valid, done) refl,
        record {
          own = record { valid = a.valid; front = omega (arith, a.front_kept, g.out_front) };
          bounded = omega (arith, a.bounded, size);
          added = a.added;
        },
      )
]

keep_buf_lem :
    {c : Conn} (n : ℕ) (buf : Buffer)
    → IsGood c
    → IsOwn buf
    → length c.output_buf.bytes + (length buf.bytes + n) ≤ max_size
    → (out rest : Buffer) × (keep_buf c buf
        ≡ ok (kept c out, rest, kept_effects c (length (contents buf))))
      × Moved n c (contents buf) out
unfolding keep_buf
keep_buf_lem {c} n buf g b fits =
    let (out, rest, done, m) = take_buf_lem n buf g b fits in
    let size : readable_bytes buf ≡ length (contents buf) = sym (length-contents b.valid) in
    (out, rest, rw (done, size) (rw (want_write_lem c out) refl), m)

abbrev is_direct : Conn → Bool
is_direct c = not c.events.write && (readable_bytes c.output_buf == 0)

-- What the direct write leaves in the buffer.
abbrev left_in : Attempt → Buffer → Buffer
left_in a buf = if a.is_written then retrieve buf a.n else buf

left_in_lem :
    (c : Conn) (buf : Buffer) (answer : WriteAnswer)
    → IsOwn buf
    → (contents (left_in (attempt c (contents buf) answer) buf)
        ≡ drop (attempt c (contents buf) answer).n (contents buf))
      × IsOwn (left_in (attempt c (contents buf) answer) buf)
      × (length (left_in (attempt c (contents buf) answer) buf).bytes ≡ length buf.bytes)
unfolding attempt try_write
left_in_lem c buf (failed e) b = elim (Bool-cases (is_direct c)) [
  | inl direct ↦ rw direct (refl, b, refl)
  | inr busy ↦ rw busy (refl, b, refl)
]
left_in_lem c buf (wrote n) b = elim (Bool-cases (is_direct c)) [
  | inl direct ↦
      let (v, same) = contents-retrieve n b.valid in
      let (front, size) = retrieve-front buf n b.valid b.front in
      rw direct (same, record { valid = v; front = front }, size)
  | inr busy ↦ rw busy (refl, b, refl)
]

-- The three ways that `sendInLoopBuf` ends, for a connection that is not closed: with `a`, the attempt.
send_buf_finished :
    (c : Conn) (buf : Buffer) (answer : WriteAnswer)
    → IsOwn buf
    → same_state c.state disconnected ≡ false
    → keeps (attempt c (contents buf) answer) ≡ false
    → (rest : Buffer) × (send_in_loop_buf c buf answer
        ≡ ok (c, rest, (attempt c (contents buf) answer).done))
unfolding send_in_loop_buf
send_buf_finished c buf answer b here all =
    (left_in (attempt c (contents buf) answer) buf, rw (here, load-contents buf b.valid, all) refl)

send_buf_kept :
    (c : Conn) (buf out rest : Buffer) (answer : WriteAnswer) (es : List Effect)
    → IsOwn buf
    → same_state c.state disconnected ≡ false
    → keeps (attempt c (contents buf) answer) ≡ true
    → keep_buf c (left_in (attempt c (contents buf) answer) buf) ≡ ok (kept c out, rest, es)
    → send_in_loop_buf c buf answer
      ≡ ok (kept c out, rest, (attempt c (contents buf) answer).done ++ es)
unfolding send_in_loop_buf
send_buf_kept c buf out rest answer es b here left done =
    rw (here, load-contents buf b.valid, left, done) refl

closed-Steps :
    {c : Conn} (n : ℕ) (buf : Buffer) (answer : WriteAnswer)
    → IsGood c
    → Fits (length buf.bytes + n) c
    → same_state c.state disconnected ≡ true
    → Steps n c (handed c (contents buf) answer) (send_in_loop_buf c buf answer >>= forget_rest)
unfolding send_in_loop_buf
closed-Steps {c} n buf answer g fits gone = (
  c,
  [],
  rw gone refl,
  record { good = g; fits = omega arith; stream = rw gone (sym (append-nil (waiting c))) },
)

pub send_in_loop_buf-Steps :
    {c : Conn} (n : ℕ) (buf : Buffer) (answer : WriteAnswer)
    → IsGood c
    → Fits (length buf.bytes + n) c
    → IsOwn buf
    → Answers (length (contents buf)) answer
    → Steps n c (handed c (contents buf) answer) (send_in_loop_buf c buf answer >>= forget_rest)
send_in_loop_buf-Steps {c} n buf answer g fits b h =
    let xs = contents buf in
    let a = attempt c xs answer in
    elim (Bool-cases (same_state c.state disconnected)) [
      | inl gone ↦ closed-Steps n buf answer g fits gone
      | inr here ↦ elim (Bool-cases (keeps a)) [
        | inr all ↦
            let (rest, done) = send_buf_finished c buf answer b here all in
            (
              c,
              a.done,
              rw done refl,
              record {
                good = g;
                fits = omega arith;
                stream = finished-stream c xs answer g.out_valid h here all;
              },
            )
        | inl left ↦
            let (same, own, size) = left_in_lem c buf answer b in
            let buf' = left_in a buf in
            let room : length c.output_buf.bytes + (length buf'.bytes + n) ≤ max_size =
              omega (arith, size) in
            let (out, rest, done, m) = keep_buf_lem n buf' g own room in
            (
              kept c out,
              a.done ++ kept_effects c (length (contents buf')),
              rw
                  (send_buf_kept c buf out rest answer (kept_effects c (length (contents buf'))) b
                    here left done)
                  refl,
              record {
                good = record {
                  out_valid = m.own.valid;
                  out_front = m.own.front;
                  in_valid = g.in_valid;
                  in_front = g.in_front;
                };
                fits = (m.bounded, omega arith);
                stream =
                    subst
                      (λ l.
                        sent_bytes (a.done ++ kept_effects c (length l)) ++ contents out
                        ≡ waiting c ++ handed c xs answer)
                      (sym same)
                      (kept-stream c xs answer g.out_valid out here left (m.added ∙ rw same refl));
              },
            )
      ]
    ]
