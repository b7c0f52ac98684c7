-- ===== src/Connector.antt =====
-- sevent/net/Connector.cpp: the connect of a client, with its retries.
-- What a function does outside of the connector is a list of effects; what `connect` and `SO_ERROR`
-- answer is an argument. A task that the loop runs later is a call of its own.
pub mod Steps
pub mod Descriptors
pub mod Retries
pub mod Limits
mod Tests
use sevent.Base.{
  ℕ, ◌+◌, ◌-◌, ◌*◌, ◌≡◌, Bool, true, false, not, ◌&&◌, ◌||◌, List, [], ◌∷◌, ◌++◌, ltb,
  if◌then◌else◌,
}
use sevent.Base.Int.{ℤ, pos, negsuc, is_neg}

pub data State : Type 0 where
  disconnected connecting connected : State

abbrev pub same_state : State → State → Bool
same_state disconnected disconnected = true
same_state connecting connecting = true
same_state connected connected = true
same_state _ _ = false

pub data Task : Type 0 where
  calls_doconnect calls_do_timeout : Task

pub data Effect : Type 0 where
  create_fd close_fd enable_write remove_channel new_connection reset_connection : Effect
  call_timeout_callback connection_handle_close connection_shutdown connection_force_close : Effect
  add_timer : ℕ → Task → Effect

pub record Connector : Type 0 where
  pub is_stop : Bool
  pub retry_ms : ℕ
  pub retry_count : ℤ
  pub retry_cur : ℤ
  pub timeout : ℕ
  pub state : State
  pub has_connection : Bool

abbrev pub min_retry_delay_ms : ℕ
min_retry_delay_ms = 500

abbrev pub max_retry_delay_ms : ℕ
max_retry_delay_ms = 30 * 1000

-- A timeout that is not positive means none, and is 0 here.
abbrev pub create_connector : Connector
create_connector = record {
  is_stop = true;
  retry_ms = min_retry_delay_ms;
  retry_count = negsuc 0;
  retry_cur = negsuc 0;
  timeout = 0;
  state = disconnected;
  has_connection = false;
}

-- What `connect` answered, as the three groups of the `switch`.
pub data ConnectAnswer : Type 0 where
  in_progress try_again failed : ConnectAnswer

-- The errors that the `switch` names, on Linux, with 0 for a call that returned 0.
pub data ConnectErrno : Type 0 where
  no_error einprogress eintr eisconn : ConnectErrno
  eagain eaddrinuse eaddrnotavail econnrefused enetunreach : ConnectErrno
  eacces eperm eafnosupport ealready ebadf efault enotsock other : ConnectErrno

abbrev pub classify : ConnectErrno → ConnectAnswer
classify no_error = in_progress
classify einprogress = in_progress
classify eintr = in_progress
classify eisconn = in_progress
classify eagain = try_again
classify eaddrinuse = try_again
classify eaddrnotavail = try_again
classify econnrefused = try_again
classify enetunreach = try_again
classify _ = failed

abbrev pub is_zero : ℤ → Bool
is_zero (pos n) = not (ltb 0 n)
is_zero (negsuc n) = false

-- `if (retryCur > 0) --retryCur`
abbrev pub less_one : ℤ → ℤ
less_one (pos n) = pos (n - 1)
less_one (negsuc n) = negsuc n

abbrev pub next_delay : ℕ → ℕ
next_delay ms = if ltb (ms * 2) max_retry_delay_ms then ms * 2 else max_retry_delay_ms

unfoldable pub retry : Connector → Connector × List Effect
retry c =
    let c' = record c { state = disconnected } in
    if not c.is_stop && not (is_zero c.retry_cur)
    then (
      record c' { retry_cur = less_one c.retry_cur; retry_ms = next_delay c.retry_ms },
      close_fd ∷ add_timer c.retry_ms calls_doconnect ∷ [],
    )
    else (c', close_fd ∷ [])

unfoldable pub doconnecting : Connector → Connector × List Effect
doconnecting c = (record c { state = connecting }, enable_write ∷ [])

abbrev pub after_create : Connector × List Effect → Connector × List Effect
after_create (c, es) = (c, create_fd ∷ es)

unfoldable pub try_connect : Connector → ConnectAnswer → Connector × List Effect
unfolding retry doconnecting
try_connect c in_progress = after_create (doconnecting c)
try_connect c try_again = after_create (retry c)
try_connect c failed = after_create (record c { state = disconnected }, close_fd ∷ [])

-- The answer is `classify` of the error of `connect`.
unfoldable pub doconnect : Connector → ConnectAnswer → Connector × List Effect
unfolding try_connect
doconnect c answer = if c.is_stop then (c, []) else try_connect c answer

unfoldable pub connect : Connector → ConnectAnswer → Connector × List Effect
unfolding doconnect
connect c answer =
    let (c', es) = doconnect (record c { is_stop = false; retry_cur = c.retry_count }) answer in
    (c', es ++ (if ltb 0 c.timeout then add_timer c.timeout calls_do_timeout ∷ [] else []))

unfoldable pub do_timeout : Connector → Connector × List Effect
do_timeout c =
    if not c.is_stop && not (same_state c.state connected)
    then (
      record c { is_stop = true; state = disconnected },
      (if same_state c.state connecting then remove_channel ∷ close_fd ∷ [] else [])
          ++ call_timeout_callback ∷ [],
    )
    else (c, [])

unfoldable pub close_on_connecting : Connector → Connector × List Effect
close_on_connecting c =
    if same_state c.state connecting
    then (record c { state = disconnected }, remove_channel ∷ close_fd ∷ [])
    else (c, [])

-- The common part of `stopInLoop`, `shutdownInLoop` and `forceCloseInLoop`, which differ in what
-- they call on an established connection.
unfoldable pub end_in_loop : Effect → Connector → Connector × List Effect
unfolding close_on_connecting
end_in_loop call c =
    let (c', es) = close_on_connecting (record c { is_stop = true }) in
    (c', es ++ (if same_state c'.state connected && c.has_connection then call ∷ [] else []))

unfoldable pub stop_in_loop : Connector → Connector × List Effect
unfolding end_in_loop
stop_in_loop c = end_in_loop connection_handle_close c

unfoldable pub shutdown_in_loop : Connector → Connector × List Effect
unfolding end_in_loop
shutdown_in_loop c = end_in_loop connection_shutdown c

unfoldable pub force_close_in_loop : Connector → Connector × List Effect
unfolding end_in_loop
force_close_in_loop c = end_in_loop connection_force_close c

-- The first line of `stop`, `shutdown` and `forceClose`, in the thread of the caller.
abbrev pub set_stop : Connector → Connector
set_stop c = record c { is_stop = true }

unfoldable pub on_connection : Connector → Connector × List Effect
on_connection c = (record c { state = connected; has_connection = true }, new_connection ∷ [])

abbrev after_remove : Connector × List Effect → Connector × List Effect
after_remove (c, es) = (c, remove_channel ∷ es)

-- `is_error` is whether `SO_ERROR` is set.
unfoldable pub handle_write : Connector → Bool → Bool → Connector × List Effect
unfolding retry on_connection
handle_write c is_error is_self_connect =
    if same_state c.state connecting
    then after_remove (
        if is_error || is_self_connect
        then retry c
        else if not c.is_stop
        then on_connection c
        else (record c { state = disconnected }, close_fd ∷ []))
    else (c, [])

unfoldable pub handle_error : Connector → Connector × List Effect
unfolding retry
handle_error c = if same_state c.state connecting then after_remove (retry c) else (c, [])

unfoldable pub remove_connection : Connector → Connector × List Effect
remove_connection c =
    (record c { state = disconnected; has_connection = false }, reset_connection ∷ [])
