-- ===== src/TcpConnection/Tests.antt =====
-- Runs of sevent/net/TcpConnection.cpp on a small connection, and the theorems at them.
use sevent.Base.{inr, ◌+◌, ◌≡◌, refl, true, false, List, [], ◌∷◌, ◌++◌, arith, ok}
use sevent.Base.Int.{pos}
use sevent.Base.Memory.{store, load}
use sevent.Buffer.{Buffer, append, write_fd}
use sevent.TcpConnection.{
  Conn, State, connected, Effect, Task, wrote, shutdown_in_loop, force_close_in_loop,
}
use sevent.TcpConnection.Sending.{send_in_loop, handle_write}
use sevent.TcpConnection.Steps.{Call, step, run}
use sevent.TcpConnection.Outcomes.{IsGood}
use sevent.TcpConnection.Stream.{sent_bytes, waiting}
use sevent.TcpConnection.Runs.{run-stream}
use sevent.TcpConnection.Registration.{Guards, step-Guards}
use sevent.TcpConnection.HighWater.{marks, send-marks}

abbrev small : Buffer
small = record {
  bytes = 0 ∷ 0 ∷ 0 ∷ 0 ∷ 0 ∷ 0 ∷ 0 ∷ 0 ∷ 0 ∷ 0 ∷ [];
  read_index = 8;
  write_index = 8;
}

abbrev idle : Conn
idle = record {
  fd = pos 5;
  events = record { read = true; write = false };
  is_read = true;
  is_write = false;
  id = 1;
  state = connected;
  has_handler = true;
  input_buf = small;
  output_buf = small;
  high_water_mark = 2;
}

-- A buffer with the byte 4.
abbrev own : Buffer
own = record small { bytes = 0 ∷ 0 ∷ 0 ∷ 0 ∷ 0 ∷ 0 ∷ 0 ∷ 0 ∷ 4 ∷ 0 ∷ []; write_index = 9 }

-- Three bytes, of which the kernel takes one; a buffer with one more; a shutdown; the other three; the
-- close.
abbrev calls : List Call
calls =
    Call.sends (1 ∷ 2 ∷ 3 ∷ []) (wrote 1)
    ∷ Call.sends_buf own (wrote 0)
    ∷ Call.shuts_down
    ∷ Call.writes (wrote 3)
    ∷ Call.force_closes
    ∷ []

abbrev last : Conn
unfolding step run send_in_loop sevent.TcpConnection.Sending.send_in_loop_buf load append store
    handle_write write_fd shutdown_in_loop force_close_in_loop
last = elim (run idle calls) [ ok (c, es) ↦ c | _ ↦ idle ]

abbrev trace : List Effect
unfolding step run send_in_loop sevent.TcpConnection.Sending.send_in_loop_buf load append store
    handle_write write_fd shutdown_in_loop force_close_in_loop
trace = elim (run idle calls) [ ok (c, es) ↦ es | _ ↦ [] ]

trace_run :
    trace
    ≡ Effect.sent (1 ∷ [])
      ∷ Effect.queue_in_loop (Task.on_high_water_mark 2)
      ∷ Effect.update_channel (record { read = true; write = true })
      ∷ Effect.sent (2 ∷ 3 ∷ 4 ∷ [])
      ∷ Effect.update_channel (record { read = true; write = false })
      ∷ Effect.queue_in_loop Task.on_write_complete
      ∷ Effect.shutdown_write
      ∷ Effect.call_on_close
      ∷ Effect.remove_channel
      ∷ Effect.queue_in_loop Task.tie
      ∷ Effect.remove_connection 1
      ∷ Effect.close_fd
      ∷ []
unfolding trace sevent.Base.Memory.resize
trace_run = refl

run-stream_example :
    (c : Conn) × (es : List Effect) × (run idle calls ≡ ok (c, es))
    × IsGood c
    × (sent_bytes es ++ waiting c ≡ 1 ∷ 2 ∷ 3 ∷ 4 ∷ [])
unfolding last sevent.Base.Memory.resize
run-stream_example = run-stream idle calls (omega arith) (omega arith) (omega arith)

-- The last two bytes wait, and the connection is to be shut down when they are gone.
abbrev draining : Conn
draining = record idle {
  state = State.disconnecting;
  events = record { read = true; write = true };
  output_buf = record small { write_index = 10 };
}

step-Guards_example : Guards (handle_write draining (wrote 2)).0 (handle_write draining (wrote 2)).1
unfolding step
step-Guards_example =
    step-Guards {c = draining} (Call.writes (wrote 2)) (omega arith) (omega arith) refl
      (inr (inr refl)) refl

send-marks_example : marks (Effect.queue_in_loop (Task.on_high_water_mark 2) ∷ []) ≡ 2 ∷ []
unfolding send_in_loop append store
send-marks_example =
    send-marks {c = record idle { events = record { read = true; write = true } }}
      {c' = record idle {
        events = record { read = true; write = true };
        output_buf = record small {
          bytes = 0 ∷ 0 ∷ 0 ∷ 0 ∷ 0 ∷ 0 ∷ 0 ∷ 0 ∷ 7 ∷ 9 ∷ [];
          write_index = 10;
        };
      }}
      (7 ∷ 9 ∷ []) (wrote 0) (omega arith) (omega arith) refl
