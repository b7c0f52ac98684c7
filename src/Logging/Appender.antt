-- ===== src/Logging/Appender.antt =====
-- sevent/base/LogAsynAppender.cpp: the buffers of the asynchronous log and its writing thread, one
-- locked section at a time.
pub mod Order
use sevent.Base.{
  ℕ, ◌+◌, ◌-◌, Bool, true, false, not, ◌&&◌, List, [], ◌∷◌, ◌++◌, ltb, ◌==◌, length, take,
  if◌then◌else◌,
}
use sevent.Logging.{FixedBuffer, remain}
use sevent.Logging as L

-- `nextBuffer` is empty when it is there, and so only whether it is there is kept.
pub record LogAsynAppender : Type 0 where
  pub cur_buffer : FixedBuffer
  pub has_next : Bool
  pub buffers_holder : List FixedBuffer

abbrev pub fresh : ℕ → FixedBuffer
fresh size = record { size = size; written = [] }

-- The full buffer moves to `buffersHolder`, and an empty one takes its place.
unfoldable pub append : LogAsynAppender → List ℕ → LogAsynAppender
append a log =
    if ltb (length log) (remain a.cur_buffer)
    then record a { cur_buffer = L.append a.cur_buffer log }
    else record {
      cur_buffer = L.append (fresh a.cur_buffer.size) log;
      has_next = false;
      buffers_holder = a.buffers_holder ++ a.cur_buffer ∷ [];
    }

-- What the writing thread takes under the lock, none when there is nothing.
unfoldable pub collect : LogAsynAppender → LogAsynAppender × List FixedBuffer
collect a =
    if (length a.buffers_holder == 0) && (length a.cur_buffer.written == 0) then (a, []) else (
      record { cur_buffer = fresh a.cur_buffer.size; has_next = true; buffers_holder = [] },
      a.buffers_holder ++ a.cur_buffer ∷ [],
    )

abbrev pub text_of : List FixedBuffer → List ℕ
text_of [] = []
text_of (b ∷ buffers) = b.written ++ text_of buffers

-- What it writes: above the limit all but two buffers are dropped, with a notice of their number.
abbrev pub write_out : (ℕ → List ℕ) → ℕ → List FixedBuffer → List ℕ
write_out notice limit buffers =
    if ltb limit (length buffers)
    then notice (length buffers - 2) ++ text_of (take 2 buffers)
    else text_of buffers

-- `limit < 4 ? 4 : limit`
abbrev pub buffers_limit : ℕ → ℕ
buffers_limit limit = if ltb limit 4 then 4 else limit

-- How many buffers the thread takes back from those that it wrote, to have two again.
abbrev pub taken_back : LogAsynAppender → ℕ
taken_back a = if a.has_next then 1 else 2
