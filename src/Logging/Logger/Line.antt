-- ===== src/Logging/Logger/Line.antt =====
-- sevent/base/Logger.cpp and sevent/base/FixedBuffer.h: the line of an event.
use sevent.Base.{
  ℕ, suc, ◌+◌, ◌≤◌, ◌≡◌, refl, ap, sym, ◌∙◌, Bool, Bool-cases, inl, inr, true, ◌||◌, List, [], ◌∷◌,
  ◌++◌, append_assoc, append-nil, length, length-append, ltb, leb, ◌==◌, lt→ltb, le→ltb, le→leb,
  lt→leb, arith, if◌then◌else◌,
}
use sevent.Base.Int.{ℤ}
use sevent.Logging.{FixedBuffer, append, format_integer, convert, remain}
use sevent.Logging.Fixed.{Write, writes_text, writes_integer, write, write_all}
use sevent.Logging.Logger.{
  Level, number, LogEvent, before_msg_to_stream, after_msg_to_stream, small_buffer_size,
  fresh_stream, Effect, appends, flushes, aborts, end_event, log,
}

abbrev pub text_of : List Write → List ℕ
text_of [] = []
text_of (writes_text text ∷ ws) = text ++ text_of ws
text_of (writes_integer value ∷ ws) = convert value ++ text_of ws

text_of-append : (vs ws : List Write) → text_of (vs ++ ws) ≡ text_of vs ++ text_of ws
text_of-append [] ws = refl
text_of-append (writes_text text ∷ vs) ws =
    ap (◌++◌ text) (text_of-append vs ws) ∙ sym (append_assoc text (text_of vs) (text_of ws))
text_of-append (writes_integer value ∷ vs) ws =
    ap (◌++◌ (convert value)) (text_of-append vs ws)
    ∙ sym (append_assoc (convert value) (text_of vs) (text_of ws))

write_all-append :
    (vs ws : List Write) (b : FixedBuffer) → write_all b (vs ++ ws) ≡ write_all (write_all b vs) ws
write_all-append [] ws b = refl
write_all-append (v ∷ vs) ws b = write_all-append vs ws (write b v)

abbrev with_text : FixedBuffer → List ℕ → FixedBuffer
with_text b text = record b { written = b.written ++ text }

-- Where the text fits, with 32 bytes to spare, all of it is written.
write_all-whole :
    (ws : List Write) (b : FixedBuffer)
    → length b.written + length (text_of ws) + 32 ≤ b.size
    → write_all b ws ≡ with_text b (text_of ws)
unfolding append format_integer
write_all-whole [] b h = rw (append-nil b.written) refl
write_all-whole (writes_text text ∷ ws) b h =
    let l = length-append text (text_of ws) in
    let room : ltb (length text) (remain b) ≡ true =
      lt→ltb (length text) (remain b) (omega arith) in
    let first : append b text ≡ with_text b text = rw room refl in
    let l' = length-append b.written text in
    rw first (
      write_all-whole ws (with_text b text) (omega (arith, l, l'))
      ∙ rw (append_assoc b.written text (text_of ws)) refl)
write_all-whole (writes_integer value ∷ ws) b h =
    let text = convert value in
    let l = length-append text (text_of ws) in
    let room : leb 32 (remain b) ≡ true = le→leb 32 (remain b) (omega (arith, l)) in
    let first : format_integer b value ≡ with_text b text = rw room refl in
    let l' = length-append b.written text in
    rw first (
      write_all-whole ws (with_text b text) (omega (arith, l, l'))
      ∙ rw (append_assoc b.written text (text_of ws)) refl)

abbrev ends : LogEvent → List Effect
ends e = if number e.level == 5 then flushes ∷ aborts ∷ [] else []

-- The line of an event that is enabled, whose text leaves 32 bytes of the stream, is given to the
-- appender whole: what stands before the message, the message, and what stands behind it. A fatal event
-- then flushes and aborts.
pub log-whole :
    (show_micro_second : Bool) (strerror : ℤ → List ℕ) (min : Level) (always : Bool) (e : LogEvent)
    (message : List Write)
    → (always || leb (number min) (number e.level)) ≡ true
    → length (
          text_of (
            before_msg_to_stream show_micro_second strerror e
            ++ (message ++ after_msg_to_stream e)))
        + 32
      ≤ small_buffer_size
    → log show_micro_second strerror min always e message
      ≡ appends (
          text_of (
            before_msg_to_stream show_micro_second strerror e
            ++ (message ++ after_msg_to_stream e)))
        ∷ (if number e.level == 5 then flushes ∷ aborts ∷ [] else [])
unfolding log end_event
log-whole show_micro_second strerror min always e message enabled h =
    let before = before_msg_to_stream show_micro_second strerror e in
    let after = after_msg_to_stream e in
    let joined : write_all (write_all (write_all fresh_stream before) message) after
        ≡ with_text fresh_stream (text_of (before ++ (message ++ after))) =
      sym (write_all-append message after (write_all fresh_stream before))
      ∙ sym (write_all-append before (message ++ after) fresh_stream)
      ∙ write_all-whole (before ++ (message ++ after)) fresh_stream (omega arith) in
    rw (enabled, joined) refl

append-full :
    (text : List ℕ) (b : FixedBuffer) → b.size ≤ suc (length b.written) → append b text ≡ b
unfolding append
append-full [] b h = elim (Bool-cases (ltb 0 (remain b))) [
  | inl room ↦ rw (room, append-nil b.written) refl
  | inr full ↦ rw full refl
]
append-full (c ∷ cs) b h = rw (le→ltb (suc (length cs)) (remain b) (omega arith)) refl

format_integer-full :
    (value : ℤ) (b : FixedBuffer) → b.size ≤ suc (length b.written) → format_integer b value ≡ b
unfolding format_integer
format_integer-full value b h = rw (lt→leb 32 (remain b) (omega arith)) refl

write_all-full :
    (ws : List Write) (b : FixedBuffer) → b.size ≤ suc (length b.written) → write_all b ws ≡ b
write_all-full [] b h = refl
write_all-full (writes_text text ∷ ws) b h = rw (append-full text b h) (write_all-full ws b h)
write_all-full (writes_integer value ∷ ws) b h =
    rw (format_integer-full value b h) (write_all-full ws b h)

-- A message that fills the stream up to its last byte: the line ends with it, and has neither the file
-- nor the end of the line.
pub log-cut :
    (show_micro_second : Bool) (strerror : ℤ → List ℕ) (min : Level) (always : Bool) (e : LogEvent)
    (text : List ℕ)
    → (always || leb (number min) (number e.level)) ≡ true
    → length (text_of (before_msg_to_stream show_micro_second strerror e)) + 32 ≤ small_buffer_size
    → length (text_of (before_msg_to_stream show_micro_second strerror e)) + suc (length text)
      ≡ small_buffer_size
    → log show_micro_second strerror min always e (writes_text text ∷ [])
      ≡ appends (text_of (before_msg_to_stream show_micro_second strerror e) ++ text)
        ∷ (if number e.level == 5 then flushes ∷ aborts ∷ [] else [])
unfolding log end_event append
log-cut show_micro_second strerror min always e text enabled h full =
    let before = before_msg_to_stream show_micro_second strerror e in
    let first = write_all-whole before fresh_stream (omega arith) in
    let header = with_text fresh_stream (text_of before) in
    let room : ltb (length text) (remain header) ≡ true =
      lt→ltb (length text) (remain header) (omega arith) in
    let stays =
      write_all-full (after_msg_to_stream e) (with_text header text)
        (omega (arith, length-append (text_of before) text)) in
    rw (enabled, first, room, stays) refl
