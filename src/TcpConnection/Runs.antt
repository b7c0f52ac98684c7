-- ===== src/TcpConnection/Runs.antt =====
-- sevent/net/TcpConnection.cpp: the bytes of a connection over any sequence of calls.
use sevent.Base.{
  ℕ, ◌+◌, ◌≤◌, ◌≡◌, refl, sym, subst, inl, inr, Option, none, some, List, [], ◌∷◌, ◌++◌, arith,
  length, ok, err, ◌==◌, Bool-cases, append-nil, append_assoc,
}
use sevent.Base.Memory.{max_size}
use sevent.Buffer.{Buffer, prepends, readable_bytes, read_fd}
use sevent.Buffer.Appending.{Appended}
use sevent.Buffer.Descriptors.{read_fd_lem}
use sevent.TcpConnection.{
  Conn, disconnected, same_state, Effect, handle_close, handle_error, shutdown_in_loop,
  force_close_in_loop, enable_read_in_loop, disable_read_in_loop, enable_write_in_loop,
  disable_write_in_loop, if_handler, call_on_message,
}
use sevent.TcpConnection.Handling.{handle_read}
use sevent.TcpConnection.Outcomes.{IsGood, Fits}
use sevent.TcpConnection.Stream.{
  sent_bytes, sent_bytes-append, waiting, accepted, send_in_loop-stream,
}
use sevent.TcpConnection.Steps.{Call, Answers, step, run}
use sevent.TcpConnection.Quiet.{
  Quiet, Steps, Quiet-Steps, handle_close-Quiet, handle_error-Quiet, shutdown-Quiet,
  force_close-Quiet, enable_read-Quiet, disable_read-Quiet, enable_write-Quiet, disable_write-Quiet,
}
use sevent.Buffer.Contents.{contents}
use sevent.TcpConnection.Moved.{IsOwn, send_in_loop_buf-Steps}
use sevent.TcpConnection.Writes.{handle_write-Steps, send_output-Steps}

-- The bytes that a read brings.
abbrev pub read_size : Option (List ℕ) → ℕ
read_size none = 0
read_size (some xs) = length xs

-- After `inputBuf.readFd`.
read-Steps :
    {c : Conn} {buf : Buffer} (n : ℕ) (xs : List ℕ) (r : Conn × List Effect)
    → IsGood c
    → Fits (length xs + n) c
    → Appended c.input_buf xs buf
    → Quiet (record c { input_buf = buf }) r
    → Steps n c [] (ok r)
read-Steps {c} {buf} n xs (c', es) g fits a (out, inp, silent) =
    let front : prepends ≤ buf.read_index = omega (arith, a.front_kept) in
    let size : length buf.bytes + n ≤ max_size = omega (arith, a.bounded) in
    let size_out : length c.output_buf.bytes + n ≤ max_size = omega arith in
    (
      c',
      es,
      refl,
      record {
        good = record {
          out_valid = rw out g.out_valid;
          out_front = rw out g.out_front;
          in_valid = rw inp a.valid;
          in_front = rw inp front;
        };
        fits = (rw out size_out, rw inp size);
        stream = rw (silent, out) (sym (append-nil (waiting c)));
      },
    )

handle_read-Steps :
    {c : Conn} (n : ℕ) (answer : Option (List ℕ))
    → IsGood c
    → Fits (read_size answer + n) c
    → Steps n c [] (handle_read c answer)
unfolding handle_read read_fd
handle_read-Steps {c} n none g fits = elim (Bool-cases (same_state c.state disconnected)) [
  | inl gone ↦ rw gone (Quiet-Steps n (c, []) g (omega arith) (refl, refl, refl))
  | inr here ↦ rw here (Quiet-Steps n (handle_error c) g (omega arith) (handle_error-Quiet c))
]
handle_read-Steps {c} n (some xs) g fits = elim (Bool-cases (same_state c.state disconnected)) [
  | inl gone ↦ rw gone (Quiet-Steps n (c, []) g (omega arith) (refl, refl, refl))
  | inr here ↦
      let (buf, done, a) = read_fd_lem xs g.in_valid (inr g.in_front) (omega arith) in
      elim (Bool-cases (length xs == 0)) [
        | inl eof ↦
            rw (here, done, eof)
              (read-Steps n xs (handle_close (record c { input_buf = buf })) g fits a
                (handle_close-Quiet (record c { input_buf = buf })))
        | inr more ↦
            rw (here, done, more)
              (read-Steps n xs (record c { input_buf = buf }, if_handler c (call_on_message buf)) g
                fits a (refl, refl, ground arith))
      ]
]

-- What a call needs of the kernel and of the user's buffer, and the bytes that it brings.
abbrev pub Answered : Conn → Call → Type 0
Answered c (Call.sends xs answer) = Answers (length xs) answer
Answered c (Call.sends_buf buf answer) = IsOwn buf × Answers (length (contents buf)) answer
Answered c (Call.sends_output answer) = Answers (readable_bytes c.output_buf) answer
Answered c (Call.writes answer) = Answers (readable_bytes c.output_buf) answer
Answered c _ = Unit {0}

abbrev pub call_size : Call → ℕ
call_size (Call.sends xs answer) = length xs
call_size (Call.sends_buf buf answer) = length buf.bytes
call_size (Call.reads answer) = read_size answer
call_size _ = 0

step-Steps :
    {c : Conn} (n : ℕ) (a : Call)
    → IsGood c
    → Fits (call_size a + n) c
    → Answered c a
    → Steps n c (accepted c a) (step c a)
unfolding step
step-Steps {c} n Call.closes g f h =
    Quiet-Steps n (handle_close c) g (omega arith) (handle_close-Quiet c)
step-Steps {c} n Call.errs g f h =
    Quiet-Steps n (handle_error c) g (omega arith) (handle_error-Quiet c)
step-Steps {c} n Call.shuts_down g f h =
    Quiet-Steps n (shutdown_in_loop c) g (omega arith) (shutdown-Quiet c)
step-Steps {c} n Call.force_closes g f h =
    Quiet-Steps n (force_close_in_loop c) g (omega arith) (force_close-Quiet c)
step-Steps {c} n Call.enables_read g f h =
    Quiet-Steps n (enable_read_in_loop c) g (omega arith) (enable_read-Quiet c)
step-Steps {c} n Call.disables_read g f h =
    Quiet-Steps n (disable_read_in_loop c) g (omega arith) (disable_read-Quiet c)
step-Steps {c} n Call.enables_write g f h =
    Quiet-Steps n (enable_write_in_loop c) g (omega arith) (enable_write-Quiet c)
step-Steps {c} n Call.disables_write g f h =
    Quiet-Steps n (disable_write_in_loop c) g (omega arith) (disable_write-Quiet c)
step-Steps n (Call.sends xs answer) g f h = send_in_loop-stream n xs answer g f h
step-Steps n (Call.sends_buf buf answer) g f (own, h) =
    send_in_loop_buf-Steps n buf answer g f own h
step-Steps n (Call.sends_output answer) g f h = send_output-Steps n answer g (omega arith) h
step-Steps n (Call.writes answer) g f h = handle_write-Steps n answer g (omega arith) h
step-Steps n (Call.reads answer) g f h = handle_read-Steps n answer g f

-- The state after a call.
abbrev pub after : Conn → Call → Conn
after c a = elim (step c a) [ ok (c', es) ↦ c' | err e ↦ c ]

abbrev pub AllAnswered : Conn → List Call → Type 0
AllAnswered c [] = Unit {0}
AllAnswered c (a ∷ calls) = Answered c a × AllAnswered (after c a) calls

-- What the calls of a run hand over, one after the other.
abbrev pub all_accepted : Conn → List Call → List ℕ
all_accepted c [] = []
all_accepted c (a ∷ calls) = accepted c a ++ all_accepted (after c a) calls

abbrev pub total_size : List Call → ℕ
total_size [] = 0
total_size (a ∷ calls) = call_size a + total_size calls

-- Any sequence of calls on a connection with sound buffers returns, as long as the buffers need not
-- exceed the largest vector, the kernel takes no more than it is given, and the buffers that the user
-- sends are sound. What the kernel took over the whole run, followed by what still waits, is what waited
-- at first, followed by what the calls handed over, byte for byte in order: all bytes of each send of
-- data or of a buffer, except those of a send on a closed connection and of one whose direct write fails
-- with EPIPE or ECONNRESET.
pub run-stream :
    (c : Conn) (calls : List Call)
    → IsGood c
    → Fits (total_size calls) c
    → AllAnswered c calls
    → (c' : Conn) × (es : List Effect) × (run c calls ≡ ok (c', es))
      × IsGood c'
      × (sent_bytes es ++ waiting c' ≡ waiting c ++ all_accepted c calls)
unfolding run
run-stream c [] g f h = (c, [], refl, g, sym (append-nil (waiting c)))
run-stream c (a ∷ calls) g f h =
    let (c₁, es, done, s) = step-Steps (total_size calls) a g f h.0 in
    let there : after c a ≡ c₁ = rw (done, after) refl in
    let (c₂, fs, rest, good, stream) =
      run-stream c₁ calls s.good s.fits (subst (λ d. AllAnswered d calls) there h.1) in
    (
      c₂,
      es ++ fs,
      rw (done, rest) refl,
      good,
      rw
          (
            sent_bytes-append es fs,
            append_assoc,
            stream,
            ← append_assoc,
            s.stream,
            append_assoc,
            there,
          )
          refl,
    )
