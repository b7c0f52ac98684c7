-- ===== src/TcpConnection/Quiet.antt =====
-- sevent/net/TcpConnection.cpp: the calls that leave the buffers alone.
use sevent.Base.{ℕ, ◌≡◌, refl, sym, List, [], arith, Result, ok, append-nil}
use sevent.TcpConnection.{
  Conn, Effect, handle_close, handle_error, shutdown_in_loop, force_close_in_loop,
  enable_read_in_loop, disable_read_in_loop, enable_write_in_loop, disable_write_in_loop,
}
use sevent.TcpConnection.Outcomes.{IsGood, Fits}
use sevent.TcpConnection.Stream.{sent_bytes, waiting, Streams}

-- A call that leaves the buffers alone and sends nothing.
abbrev pub Quiet : Conn → Conn × List Effect → Type 0
Quiet c r = (r.0.output_buf ≡ c.output_buf) × (r.0.input_buf ≡ c.input_buf) × (sent_bytes r.1 ≡ [])

pub handle_close-Quiet : (c : Conn) → Quiet c (handle_close c)
unfolding handle_close
handle_close-Quiet c = ground arith

pub handle_error-Quiet : (c : Conn) → Quiet c (handle_error c)
unfolding handle_error
handle_error-Quiet c = ground arith

pub shutdown-Quiet : (c : Conn) → Quiet c (shutdown_in_loop c)
unfolding shutdown_in_loop
shutdown-Quiet c = ground arith

pub force_close-Quiet : (c : Conn) → Quiet c (force_close_in_loop c)
unfolding force_close_in_loop
force_close-Quiet c = ground arith

pub enable_read-Quiet : (c : Conn) → Quiet c (enable_read_in_loop c)
unfolding enable_read_in_loop
enable_read-Quiet c = ground arith

pub disable_read-Quiet : (c : Conn) → Quiet c (disable_read_in_loop c)
unfolding disable_read_in_loop
disable_read-Quiet c = ground arith

pub enable_write-Quiet : (c : Conn) → Quiet c (enable_write_in_loop c)
unfolding enable_write_in_loop
enable_write-Quiet c = ground arith

pub disable_write-Quiet : (c : Conn) → Quiet c (disable_write_in_loop c)
unfolding disable_write_in_loop
disable_write-Quiet c = ground arith

-- What a step owes, as a statement of its result.
abbrev pub Steps : ℕ → Conn → List ℕ → Result (Conn × List Effect) → Type 0
Steps n c new r = (c' : Conn) × (es : List Effect) × (r ≡ ok (c', es)) × Streams n c new c' es

pub Quiet-Steps :
    {c : Conn} (n : ℕ) (r : Conn × List Effect)
    → IsGood c
    → Fits n c
    → Quiet c r
    → Steps n c [] (ok r)
Quiet-Steps {c} n (c', es) g fits (out, inp, silent) = (
  c',
  es,
  refl,
  record {
    good = record {
      out_valid = rw out g.out_valid;
      out_front = rw out g.out_front;
      in_valid = rw inp g.in_valid;
      in_front = rw inp g.in_front;
    };
    fits = (rw out fits.0, rw inp fits.1);
    stream = rw (silent, out) (sym (append-nil (waiting c)));
  },
)
