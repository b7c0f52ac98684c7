-- ===== src/TcpConnection/Sending.antt =====
-- sevent/net/TcpConnection.cpp, the functions that write to the socket: `sendInLoop`,
-- `sendInLoopBuf`, `sendOutputBufInLoop` and `handleWrite`.
use sevent.Base.{
  ℕ, ◌-◌, Bool, true, false, not, ◌&&◌, some, List, [], ◌∷◌, ◌++◌, ltb, leb, ◌==◌, if◌then◌else◌,
  length, take, drop, Result, ok, ◌>>=◌,
}
use sevent.Base.Memory.{add_size, slice, load}
use sevent.Buffer.{Buffer, readable_bytes, retrieve, retrieve_all, append, swap, write_fd}
use sevent.Channel.{enable_write_event, disable_write_event}
use sevent.TcpConnection.{
  Conn, disconnecting, disconnected, same_state, Errno, epipe, econnreset, WriteAnswer, wrote,
  failed, Effect, sent, queue_in_loop, shutdown_write, on_write_complete, on_high_water_mark,
  if_handler, handle_close, update,
}

-- `dealErr`: whether the connection is broken.
abbrev pub deal_err : Errno → Bool
deal_err epipe = true
deal_err econnreset = true
deal_err _ = false

-- The variables of a send: `n` and `remain`, whether a direct write took place (its answer was not
-- -1), whether the connection broke, and what was done.
pub record Attempt : Type 0 where
  pub n : ℕ
  pub remain : ℕ
  pub is_written : Bool
  pub is_err : Bool
  pub done : List Effect

-- No direct write: a write event is registered, or bytes wait before these.
abbrev pub not_tried : ℕ → Attempt
not_tried len = record { n = 0; remain = len; is_written = false; is_err = false; done = [] }

-- `onWriteComplete` is queued when nothing remains.
abbrev pub completed : Conn → ℕ → List Effect
completed c remain =
    if (remain == 0) && c.has_handler then queue_in_loop on_write_complete ∷ [] else []

-- The direct write of `xs`.
unfoldable pub try_write : Conn → List ℕ → WriteAnswer → Attempt
try_write c xs (wrote n) = record {
  n = n;
  remain = length xs - n;
  is_written = true;
  is_err = false;
  done = sent (take n xs) ∷ completed c (length xs - n);
}
try_write c xs (failed e) = record {
  n = 0;
  remain = length xs;
  is_written = false;
  is_err = deal_err e;
  done = [];
}

unfoldable pub attempt : Conn → List ℕ → WriteAnswer → Attempt
unfolding try_write
attempt c xs answer =
    if not c.events.write && (readable_bytes c.output_buf == 0)
    then try_write c xs answer
    else not_tried (length xs)

-- `onHighWaterMark` is queued when the waiting bytes reach the mark from below.
unfoldable pub high_water : Conn → ℕ → List Effect
high_water c remain =
    let old_len = readable_bytes c.output_buf in
    if leb c.high_water_mark (add_size old_len remain)
      && (ltb old_len c.high_water_mark && c.has_handler)
    then queue_in_loop (on_high_water_mark (add_size old_len remain)) ∷ []
    else []

-- `if (!isEnableWrite()) enableWriteEvent()`
unfoldable pub want_write : Conn → Conn × List Effect
unfolding update
want_write c = if c.events.write then (c, []) else update c (enable_write_event c.events)

-- The bytes that remain wait in `outputBuf` for the write event.
unfoldable pub keep_rest : Conn → List ℕ → Result (Conn × List Effect)
unfolding high_water want_write
keep_rest c xs = do
  buf ← append c.output_buf xs
  let (c', es) = want_write (record c { output_buf = buf })
  ok (c', high_water c (length xs) ++ es)

unfoldable pub send_in_loop : Conn → List ℕ → WriteAnswer → Result (Conn × List Effect)
unfolding attempt keep_rest
send_in_loop c xs answer =
    if same_state c.state disconnected
    then ok (c, [])
    else let a = attempt c xs answer in
      if not a.is_err && ltb 0 a.remain
      then (do (c', es) ← keep_rest c (drop a.n xs); ok (c', a.done ++ es))
      else ok (c, a.done)

-- `sendInLoopBuf` takes the user's buffer itself when nothing waits before it.
unfoldable pub take_buf : Buffer → Buffer → Result (Buffer × Buffer)
take_buf out buf = if readable_bytes out == 0 then ok (swap out buf) else do
  xs ← load buf.bytes buf.read_index (readable_bytes buf)
  out' ← append out xs
  ok (out', retrieve_all buf)

unfoldable pub keep_buf : Conn → Buffer → Result (Conn × Buffer × List Effect)
unfolding high_water want_write take_buf
keep_buf c buf = do
  let remain = readable_bytes buf
  (output, rest) ← take_buf c.output_buf buf
  let (c', es) = want_write (record c { output_buf = output })
  ok (c', rest, high_water c remain ++ es)

unfoldable pub send_in_loop_buf : Conn → Buffer → WriteAnswer → Result (Conn × Buffer × List Effect)
unfolding attempt keep_buf
send_in_loop_buf c buf answer = if same_state c.state disconnected then ok (c, buf, []) else do
  xs ← load buf.bytes buf.read_index (readable_bytes buf)
  let a = attempt c xs answer
  let buf' = if a.is_written then retrieve buf a.n else buf
  if not a.is_err && ltb 0 a.remain
      then (do (c', rest, es) ← keep_buf c buf'; ok (c', rest, a.done ++ es))
      else ok (c, buf', a.done)

-- A call of the loop leaves out the rest of the buffer, which the user has.
abbrev pub forget_rest : Conn × Buffer × List Effect → Result (Conn × List Effect)
forget_rest (c, rest, es) = ok (c, es)

-- What `write` of `outputBuf` takes if it answers `n`.
abbrev pub taken : Conn → ℕ → List ℕ
taken c n = take n (slice c.output_buf.bytes c.output_buf.read_index (readable_bytes c.output_buf))

-- `outputBuf.writeFd(fd)`, with the variables of a send.
unfoldable pub write_output : Conn → WriteAnswer → Conn × Attempt
write_output c (wrote n) =
    let remain = readable_bytes c.output_buf - n in
    (
      record c { output_buf = (write_fd c.output_buf (some n)).1 },
      record {
        n = n;
        remain = remain;
        is_written = true;
        is_err = false;
        done = sent (taken c n) ∷ completed c remain;
      },
    )
write_output c (failed e) = (
  c,
  record {
    n = 0;
    remain = readable_bytes c.output_buf;
    is_written = false;
    is_err = deal_err e;
    done = [];
  },
)

-- The direct write of `outputBuf`, unless a write event is registered or nothing waits.
unfoldable pub flush : Conn → WriteAnswer → Conn × Attempt
unfolding write_output
flush c answer =
    if not c.events.write && ltb 0 (readable_bytes c.output_buf)
    then write_output c answer
    else (c, not_tried (readable_bytes c.output_buf))

-- `handleWrite` with a write event registered. When `outputBuf` runs empty the event is taken back,
-- and a shutdown that waited for it is done.
unfoldable pub on_write_event : Conn → WriteAnswer → Conn × List Effect
unfolding handle_close update
on_write_event c (failed e) = handle_close c
on_write_event c (wrote n) =
    let c' = record c { output_buf = (write_fd c.output_buf (some n)).1 } in
    let (c'', es) = update c' (disable_write_event c'.events) in
    if n == 0
    then (c, [])
    else if readable_bytes c'.output_buf == 0
    then (
      c'',
      sent (taken c n) ∷ es
          ++ (if_handler c (queue_in_loop on_write_complete)
              ++ (if same_state c.state disconnecting then shutdown_write ∷ [] else [])),
    )
    else (c', sent (taken c n) ∷ [])

-- `sendOutputBufInLoop` writes what the user put into `outputBuf`.
unfoldable pub send_output_buf_in_loop : Conn → WriteAnswer → Conn × List Effect
unfolding want_write flush
send_output_buf_in_loop c answer =
    if same_state c.state disconnected
    then (c, [])
    else let (c', a) = flush c answer in
      if not a.is_err && ltb 0 a.remain
      then (let (c'', es) = want_write c' in (c'', a.done ++ es))
      else (c', a.done)

-- `handleWrite`: the write event came.
unfoldable pub handle_write : Conn → WriteAnswer → Conn × List Effect
unfolding on_write_event
handle_write c answer =
    if same_state c.state disconnected
    then (c, [])
    else if c.events.write
    then on_write_event c answer
    else (c, [])
