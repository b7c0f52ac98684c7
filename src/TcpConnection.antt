-- ===== src/TcpConnection.antt =====
-- sevent/net/TcpConnection.h and sevent/net/TcpConnection.cpp: the state of a connection, what it
-- does to the world, and how it is closed. Each function runs in the thread of the loop that owns the
-- connection; it returns the new state and its effects in their order. The answer of a system call
-- is an argument of the function that makes the call.
pub mod Sending
pub mod Handling
pub mod Steps
pub mod Outcomes
pub mod Stream
pub mod Quiet
pub mod Writes
pub mod Moved
pub mod Calm
pub mod Runs
pub mod Lifecycle
pub mod Closing
pub mod Registration
pub mod HighWater
mod Tests
use sevent.Base.{
  ℕ, ◌+◌, ◌*◌, Bool, true, false, not, ◌&&◌, ◌||◌, Option, none, some, List, [], ◌∷◌, ◌++◌, ltb,
  if◌then◌else◌, Result, ok, err, assertion,
}
use sevent.Base.Int.{ℤ, flip, is_neg}
use sevent.Buffer.{Buffer, create, initial_size}
use sevent.Channel.{
  Events, none_event, enable_read_event, disable_read_event, enable_write_event,
  disable_write_event,
}

pub data State : Type 0 where
  connecting connected disconnecting disconnected : State

abbrev pub same_state : State → State → Bool
same_state connecting connecting = true
same_state connected connected = true
same_state disconnecting disconnecting = true
same_state disconnected disconnected = true
same_state _ _ = false

-- The error numbers that `dealErr` tells apart.
pub data Errno : Type 0 where
  eagain epipe econnreset other : Errno

-- What `write` answers: the number of bytes that the kernel took, or -1.
pub data WriteAnswer : Type 0 where
  wrote : ℕ → WriteAnswer
  failed : Errno → WriteAnswer

-- What the loop is asked to run later.
pub data Task : Type 0 where
  on_write_complete tie : Task
  on_high_water_mark : ℕ → Task
  send_str : List ℕ → Task
  send_buf : Buffer → Task
  send_output shut_down force_closing : Task
  enabling_read disabling_read enabling_write disabling_write : Task

-- What a connection does beyond its own state: bytes that the kernel took from it, calls of the
-- poller, the loop and the socket, and calls of the user's handler.
pub data Effect : Type 0 where
  sent : List ℕ → Effect
  update_channel : Events → Effect
  remove_channel : Effect
  queue_in_loop : Task → Effect
  add_timer : ℕ → Task → Effect
  shutdown_write close_fd get_socket_error : Effect
  call_on_connection call_on_close : Effect
  call_on_message : Buffer → Effect
  remove_connection : ℕ → Effect

pub record Conn : Type 0 where
  pub fd : ℤ
  pub events : Events
  pub is_read : Bool
  pub is_write : Bool
  pub id : ℕ
  pub state : State
  pub has_handler : Bool
  pub input_buf : Buffer
  pub output_buf : Buffer
  pub high_water_mark : ℕ

unfoldable pub create_conn : ℤ → ℕ → Bool → Conn
create_conn fd id has_handler = record {
  fd = fd;
  events = none_event;
  is_read = true;
  is_write = false;
  id = id;
  state = connecting;
  has_handler = has_handler;
  input_buf = create initial_size;
  output_buf = create initial_size;
  high_water_mark = 64 * 1024 * 1024;
}

-- `if (tcpHandler)`
abbrev pub if_handler : Conn → Effect → List Effect
if_handler c e = if c.has_handler then e ∷ [] else []

-- `assert(state == connecting)`
unfoldable pub on_connection : Conn → Result (Conn × List Effect)
on_connection c =
    let e = enable_read_event c.events in
    if same_state c.state connecting
    then ok (
      record c { state = connected; events = e },
      update_channel e ∷ if_handler c call_on_connection,
    )
    else err assertion

-- `removeItself`: the user's `onClose` runs before the channel leaves the poller.
unfoldable pub remove_itself : Conn → Conn × List Effect
remove_itself c = (
  record c { state = disconnected; events = none_event },
  if_handler c call_on_close ++ remove_channel ∷ [],
)

unfoldable pub handle_close : Conn → Conn × List Effect
unfolding remove_itself
handle_close c =
    if same_state c.state disconnected
    then (c, [])
    else let (c', es) = remove_itself c in
      (c', es ++ queue_in_loop tie ∷ remove_connection c.id ∷ [])

unfoldable pub handle_error : Conn → Conn × List Effect
handle_error c = if same_state c.state disconnected then (c, []) else (c, get_socket_error ∷ [])

abbrev pub is_open : Conn → Bool
is_open c = same_state c.state connected || same_state c.state disconnecting

-- The descriptor becomes -fd - 1, so that the destructor does not close it again.
unfoldable pub force_close_in_loop : Conn → Conn × List Effect
unfolding handle_close
force_close_in_loop c =
    let (c', es) = handle_close (record c { state = disconnecting }) in
    if is_open c then (record c' { fd = flip c'.fd }, es ++ close_fd ∷ []) else (c, [])

unfoldable pub shutdown_in_loop : Conn → Conn × List Effect
shutdown_in_loop c =
    if same_state c.state connected
    then (record c { state = disconnecting }, if c.events.write then [] else shutdown_write ∷ [])
    else (c, [])

-- The destructor closes the descriptor unless `forceClose` did, and asserts that the connection was
-- closed.
unfoldable pub destroy : Conn → Result (List Effect)
destroy c =
    if same_state c.state disconnected
    then ok (if is_neg c.fd then [] else close_fd ∷ [])
    else err assertion

-- `updateEvent`: the events change, and the poller is told.
unfoldable pub update : Conn → Events → Conn × List Effect
update c e = (record c { events = e }, update_channel e ∷ [])

unfoldable pub enable_read_in_loop : Conn → Conn × List Effect
unfolding update
enable_read_in_loop c =
    if is_neg c.fd
    then (c, [])
    else if not c.is_read || not c.events.read
    then update (record c { is_read = true }) (enable_read_event c.events)
    else (c, [])

unfoldable pub disable_read_in_loop : Conn → Conn × List Effect
unfolding update
disable_read_in_loop c =
    if is_neg c.fd
    then (c, [])
    else if c.is_read || c.events.read
    then update (record c { is_read = false }) (disable_read_event c.events)
    else (c, [])

unfoldable pub enable_write_in_loop : Conn → Conn × List Effect
unfolding update
enable_write_in_loop c =
    if is_neg c.fd
    then (c, [])
    else if not c.is_write || not c.events.write
    then update (record c { is_write = true }) (enable_write_event c.events)
    else (c, [])

unfoldable pub disable_write_in_loop : Conn → Conn × List Effect
unfolding update
disable_write_in_loop c =
    if is_neg c.fd
    then (c, [])
    else if c.is_write || c.events.write
    then update (record c { is_write = false }) (disable_write_event c.events)
    else (c, [])
