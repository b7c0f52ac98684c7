-- ===== src/Channel.antt =====
-- sevent/net/Channel.h and sevent/net/Channel.cpp: the events that a descriptor waits for, and which
-- handlers the events that came call. `POLLIN | POLLPRI` are set and cleared together, and so
-- `events` is two flags; `revents` is a flag for each bit that is tested.
use sevent.Base.{Bool, true, false, not, ◌&&◌, ◌||◌, List, [], ◌∷◌, ◌++◌, if◌then◌else◌}

pub record Events : Type 0 where
  pub read : Bool
  pub write : Bool

abbrev pub none_event : Events
none_event = record { read = false; write = false }

abbrev pub is_none_event : Events → Bool
is_none_event e = not e.read && not e.write

abbrev pub enable_read_event : Events → Events
enable_read_event e = record e { read = true }

abbrev pub enable_write_event : Events → Events
enable_write_event e = record e { write = true }

abbrev pub disable_read_event : Events → Events
disable_read_event e = record e { read = false }

abbrev pub disable_write_event : Events → Events
disable_write_event e = record e { write = false }

pub record Revents : Type 0 where
  pub poll_in : Bool
  pub poll_pri : Bool
  pub poll_out : Bool
  pub poll_err : Bool
  pub poll_hup : Bool
  pub poll_nval : Bool
  pub poll_rdhup : Bool

pub data Handler : Type 0 where
  handle_close handle_error handle_read handle_write : Handler

abbrev when : Bool → Handler → List Handler
when b h = if b then h ∷ [] else []

-- `handleEvent`: the handlers in the order of their calls.
unfoldable pub handle_event : Revents → List Handler
handle_event r =
    when (r.poll_hup && not r.poll_in) handle_close
    ++ (when (r.poll_err || r.poll_nval) handle_error
        ++ (when (r.poll_in || (r.poll_pri || r.poll_rdhup)) handle_read
            ++ when r.poll_out handle_write))
