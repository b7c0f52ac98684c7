-- ===== src/Http/Codec/Tests.antt =====
-- Runs of sevent/net/http/HttpCodec.cpp, with a toy of the vendored parser: a message is the byte 1,
-- the byte 0 is an error, and the byte 2 is a message that the end of the input completes.
use sevent.Base.{
  ℕ, ◌≡◌, refl, Bool, true, false, inl, inr, some, List, [], ◌∷◌, ◌==◌, arith, if◌then◌else◌,
}
use sevent.Http.{HttpParser, Event, create_parser, execute, reset}
use sevent.Http.Codec.{Answer, Codec, on_message, pass_on}
use sevent.Http.Codec.Stream.{Message, on_message-messages}
use sevent.Http.Codec.Total.{TakesByte, on_message_total}

abbrev answer_with : ℕ → List Event → Bool → List Event → Answer
answer_with count events error eof = record {
  count = count;
  events = events;
  error = error;
  eof = eof;
  eof_error = false;
  keep_alive = false;
}

abbrev toy : List ℕ → Answer
toy [] = answer_with 0 [] false []
toy (x ∷ xs) =
    if x == 1
    then answer_with 1 (Event.on_message_complete ∷ []) false []
    else answer_with 1 [] (x == 0) (if x == 2 then Event.on_message_complete ∷ [] else [])

abbrev one : Message
one = record { bytes = 1 ∷ []; events = Event.on_message_complete ∷ []; keep_alive = false }

abbrev first : HttpParser
first = execute (create_parser true) 1 (Event.on_message_complete ∷ [])

abbrev taken : Codec
taken = record {
  is_request = true;
  parser = reset (execute (create_parser true) 1 []);
  input = 0 ∷ 1 ∷ [];
  parser_list = first ∷ first ∷ [];
  is_shut = true;
}

on_message-messages_example :
    on_message toy true false (create_parser true) (1 ∷ 1 ∷ 0 ∷ 1 ∷ [])
    ≡ some (taken, pass_on taken)
on_message-messages_example =
    on_message-messages toy (one ∷ one ∷ []) (0 ∷ 1 ∷ []) true (create_parser true)
      ((refl, omega arith, refl, (refl, omega arith, refl, refl)))

toy-TakesByte : (xs : List ℕ) → TakesByte (toy xs)
toy-TakesByte [] = inr (refl, refl)
toy-TakesByte (x ∷ xs) = inl (ground arith)

on_message_total_example :
    (s : Codec) × (on_message toy true true (create_parser true) (1 ∷ 2 ∷ []) ≡ some (s, pass_on s))
on_message_total_example =
    on_message_total toy true true (create_parser true) (1 ∷ 2 ∷ []) toy-TakesByte
