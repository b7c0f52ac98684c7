-- ===== src/Logging/Logger.antt =====
-- sevent/base/Logger.cpp: what is put before and behind a message, and where the line goes.
pub mod Line
mod Tests
use sevent.Base.{
  ℕ, ◌+◌, Bool, true, false, ◌&&◌, ◌||◌, Option, none, some, List, [], ◌∷◌, ◌++◌, take, leb, ◌==◌,
  if◌then◌else◌,
}
use sevent.Base.Int.{ℤ, pos, eq_ℤ}
use sevent.Logging.{FixedBuffer}
use sevent.Logging.Fixed.{Write, writes_text, writes_integer, write_all}

pub data Level : Type 0 where
  trace debug info warn error fatal : Level

abbrev pub number : Level → ℕ
number trace = 0
number debug = 1
number info = 2
number warn = 3
number error = 4
number fatal = 5

-- "TRACE ", "DEBUG ", "INFO  ", "WARN  ", "ERROR ", "FATAL "
abbrev pub level_name : Level → List ℕ
level_name trace = b'T' ∷ b'R' ∷ b'A' ∷ b'C' ∷ b'E' ∷ 32 ∷ []
level_name debug = b'D' ∷ b'E' ∷ b'B' ∷ b'U' ∷ b'G' ∷ 32 ∷ []
level_name info = b'I' ∷ b'N' ∷ b'F' ∷ b'O' ∷ 32 ∷ 32 ∷ []
level_name warn = b'W' ∷ b'A' ∷ b'R' ∷ b'N' ∷ 32 ∷ 32 ∷ []
level_name error = b'E' ∷ b'R' ∷ b'R' ∷ b'O' ∷ b'R' ∷ 32 ∷ []
level_name fatal = b'F' ∷ b'A' ∷ b'T' ∷ b'A' ∷ b'L' ∷ 32 ∷ []

-- Which of the variables of the environment are set.
pub record Environment : Type 0 where
  pub log_trace : Bool
  pub log_debug : Bool
  pub log_info : Bool
  pub log_error : Bool
  pub log_fatal : Bool

unfoldable pub init_level : Environment → Level
init_level env =
    if env.log_trace
    then trace
    else if env.log_debug
    then debug
    else if env.log_info
    then info
    else if env.log_error
    then error
    else if env.log_fatal
    then fatal
    else info

-- `strrchr(file, '/')`, and what is behind it, if there is one.
unfoldable pub behind_slash : List ℕ → Option (List ℕ)
behind_slash [] = none
behind_slash (c ∷ cs) = elim (behind_slash cs) [
  | some name ↦ some name
  | none ↦ if c == b'/' then some cs else none
]

abbrev pub base_name : List ℕ → List ℕ
unfolding behind_slash
base_name file = elim (behind_slash file) [ some name ↦ name | none ↦ file ]

-- The time, of which 17 bytes are printed, or 24 with microseconds, and the text of an `errno` are those
-- of the C library.
pub record LogEvent : Type 0 where
  pub file : List ℕ
  pub line : ℤ
  pub level : Level
  pub err_num : ℤ
  pub time_text : List ℕ
  pub thread_id : List ℕ

unfoldable pub create_event : List ℕ → ℤ → Level → Bool → ℤ → List ℕ → List ℕ → LogEvent
unfolding base_name
create_event file line level is_err errno time_text thread_id = record {
  file = base_name file;
  line = line;
  level = level;
  err_num = if is_err then errno else pos 0;
  time_text = time_text;
  thread_id = thread_id;
}

-- "(errno=" and ") "
abbrev errno_text : List ℕ
errno_text = 40 ∷ b'e' ∷ b'r' ∷ b'r' ∷ b'n' ∷ b'o' ∷ 61 ∷ []

-- `beforeMsgToStream`
unfoldable pub before_msg_to_stream : Bool → (ℤ → List ℕ) → LogEvent → List Write
before_msg_to_stream show_micro_second strerror e =
    writes_text (take (if show_micro_second then 24 else 17) e.time_text)
    ∷ writes_text (32 ∷ [])
    ∷ writes_text e.thread_id
    ∷ writes_text (level_name e.level)
    ∷ (if eq_ℤ e.err_num (pos 0)
        then []
        else writes_text (strerror e.err_num)
          ∷ writes_text errno_text
          ∷ writes_integer e.err_num
          ∷ writes_text (41 ∷ 32 ∷ [])
          ∷ [])

-- `afterMsgToStream`
unfoldable pub after_msg_to_stream : LogEvent → List Write
after_msg_to_stream e =
    writes_text (32 ∷ 45 ∷ 32 ∷ [])
    ∷ writes_text e.file
    ∷ writes_text (58 ∷ [])
    ∷ writes_integer e.line
    ∷ writes_text (10 ∷ [])
    ∷ []

abbrev pub small_buffer_size : ℕ
small_buffer_size = 4000

abbrev pub fresh_stream : FixedBuffer
fresh_stream = record { size = small_buffer_size; written = [] }

pub data Effect : Type 0 where
  appends : List ℕ → Effect
  flushes aborts : Effect

-- The destructor of a `LogEvent`, with the stream as the message left it; the stream is then reset.
unfoldable pub end_event : LogEvent → FixedBuffer → List Effect
unfolding after_msg_to_stream
end_event e stream =
    let done = write_all stream (after_msg_to_stream e) in
    appends done.written ∷ (if number e.level == 5 then flushes ∷ aborts ∷ [] else [])

-- A macro: the line of an event whose level is enabled. `LOG_FATAL` and the two macros of an `errno` are
-- always so.
unfoldable pub log : Bool → (ℤ → List ℕ) → Level → Bool → LogEvent → List Write → List Effect
unfolding before_msg_to_stream end_event
log show_micro_second strerror min always e message =
    if always || leb (number min) (number e.level)
    then end_event e (
        write_all (write_all fresh_stream (before_msg_to_stream show_micro_second strerror e))
          message)
    else []
