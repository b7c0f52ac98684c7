-- ===== src/Http/Codec/Stream.antt =====
-- sevent/net/http/HttpCodec.cpp: the messages of the input, in order.
use sevent.Base.{
  ℕ, zero, suc, suc-ne-zero, ◌<◌, ◌≤◌, ◌≡◌, refl, ap, ◌∙◌, Bool, true, false, ◌||◌, Option, none,
  some, List, [], ◌∷◌, ◌++◌, append_assoc, append-nil, length, length-append, set,
  drop-append_length, arith,
}
use sevent.Http.{
  HttpParser, Event, Status, parsing, completed, handle, handle_all, execute, reset, create_parser,
  set_field, set_fields, set_params, parse_query_param,
}
use sevent.Http.Codec.{
  Answer, Codec, is_complete, parse, collect, turn, parse_loop, pass_on, on_message, continue,
}

abbrev pub completes : List Event → Bool
completes [] = false
completes (Event.on_message_complete ∷ events) = true
completes (_ ∷ events) = completes events

set_params-state :
    (p : HttpParser) (o : Option (List (List ℕ × List ℕ))) → (set_params p o).state ≡ p.state
set_params-state p none = refl
set_params-state p (some params) = refl

set_field-state : (f : ℕ × List ℕ) (p : HttpParser) → (set_field p f).state ≡ p.state
set_field-state (i, text) p = ground (
  arith,
  set_params-state (record p { url_fields = set p.url_fields i text })
      (parse_query_param p.params text),
)

set_fields-state :
    (fields : List (ℕ × List ℕ)) (p : HttpParser) → (set_fields p fields).state ≡ p.state
set_fields-state [] p = refl
set_fields-state (f ∷ fields) p = set_fields-state fields (set_field p f) ∙ set_field-state f p

abbrev done : Status → Bool
done s = elim s [ completed ↦ true | _ ↦ false ]

handle_all-state :
    (events : List Event) (p : HttpParser)
    → done (handle_all p events).state ≡ (completes events || done p.state)
unfolding handle
handle_all-state [] p = refl
handle_all-state (Event.on_url fields ∷ events) p =
    handle_all-state events (handle p (Event.on_url fields))
    ∙ ap (λ s. completes events || done s) (ground (arith, set_fields-state fields p))
handle_all-state (Event.on_header_field text ∷ events) p =
    handle_all-state events (handle p (Event.on_header_field text))
handle_all-state (Event.on_header_value text ∷ events) p =
    handle_all-state events (handle p (Event.on_header_value text))
handle_all-state (Event.on_body text ∷ events) p =
    handle_all-state events (handle p (Event.on_body text))
handle_all-state (Event.on_message_complete ∷ events) p =
    handle_all-state events (handle p Event.on_message_complete) ∙ ground arith

pub is_complete-execute :
    (p : HttpParser) (n : ℕ) (events : List Event)
    → is_complete (execute p n events) ≡ completes events
unfolding execute
is_complete-execute p n events =
    handle_all-state events (record p { state = parsing }) ∙ ground arith

-- A message as the vendored parser takes it: its bytes, and what they call back.
pub record Message : Type 0 where
  pub bytes : List ℕ
  pub events : List Event
  pub keep_alive : Bool

abbrev pub answered : Message → Answer
answered m = record {
  count = length m.bytes;
  events = m.events;
  error = false;
  eof = [];
  eof_error = false;
  keep_alive = m.keep_alive;
}

abbrev pub text_of : List Message → List ℕ → List ℕ
text_of [] rest = rest
text_of (m ∷ ms) rest = m.bytes ++ text_of ms rest

-- The vendored parser takes each message off the front, and does not complete one in the rest.
abbrev pub Takes : (List ℕ → Answer) → List Message → List ℕ → Type 0
Takes answer [] rest = completes (answer rest).events ≡ false
Takes answer (m ∷ ms) rest =
    (completes m.events ≡ true)
    × (1 ≤ length m.bytes)
    × (answer (text_of (m ∷ ms) rest) ≡ answered m)
    × Takes answer ms rest

abbrev pub parsers_of : Bool → HttpParser → List Message → List HttpParser
parsers_of r p [] = []
parsers_of r p (m ∷ ms) = execute p (length m.bytes) m.events ∷ parsers_of r (create_parser r) ms

abbrev pub next_parser : Bool → HttpParser → List Message → HttpParser
next_parser r p [] = p
next_parser r p (m ∷ ms) = create_parser r

-- What is left when the loop ends with `rest`.
abbrev pub ended : (List ℕ → Answer) → Bool → HttpParser → List ℕ → List HttpParser → Codec
ended answer r p [] parsers = record {
  is_request = r;
  parser = p;
  input = [];
  parser_list = parsers;
  is_shut = false;
}
ended answer r p (x ∷ xs) parsers =
    let a = answer (x ∷ xs) in
    record {
      is_request = r;
      parser = reset (execute p a.count a.events);
      input = x ∷ xs;
      parser_list = parsers;
      is_shut = a.error;
    }

abbrev waiting : Bool → HttpParser → List ℕ → List HttpParser → Codec
waiting r p input parsers = record {
  is_request = r;
  parser = p;
  input = input;
  parser_list = parsers;
  is_shut = false;
}

turn-message :
    (answer : List ℕ → Answer) (m : Message) (r : Bool) (p : HttpParser) (rest : List ℕ)
    (parsers : List HttpParser)
    → completes m.events ≡ true
    → answer (m.bytes ++ rest) ≡ answered m
    → turn answer false (waiting r p (m.bytes ++ rest) parsers) ≡ (
      waiting r (create_parser r) rest (parsers ++ execute p (length m.bytes) m.events ∷ []),
      true,
    )
unfolding turn parse collect
turn-message answer m r p rest parsers c a =
    rw
      (
        a,
        is_complete-execute p (length m.bytes) m.events,
        c,
        drop-append_length (length m.bytes) m.bytes rest refl,
      )
      refl

turn-rest :
    (answer : List ℕ → Answer) (r : Bool) (p : HttpParser) (x : ℕ) (xs : List ℕ)
    (parsers : List HttpParser)
    → completes (answer (x ∷ xs)).events ≡ false
    → turn answer false (waiting r p (x ∷ xs) parsers) ≡ (ended answer r p (x ∷ xs) parsers, false)
unfolding turn parse collect
turn-rest answer r p x xs parsers c =
    let a = answer (x ∷ xs) in rw (is_complete-execute p a.count a.events, c) refl

loop-turn :
    (answer : List ℕ → Answer) (closing : Bool) (r : Bool) (p : HttpParser) (input : List ℕ)
    (parsers : List HttpParser) (fuel : ℕ)
    → 1 ≤ length input
    → parse_loop (suc fuel) answer closing (waiting r p input parsers)
      ≡ continue (parse_loop fuel answer closing) (turn answer closing (waiting r p input parsers))
unfolding parse_loop
loop-turn answer closing r p [] parsers fuel h = absurd (omega arith)
loop-turn answer closing r p (x ∷ xs) parsers fuel h = rw (suc-ne-zero (length xs)) refl

next_parser-create :
    (r : Bool) (ms : List Message) → next_parser r (create_parser r) ms ≡ create_parser r
next_parser-create r [] = refl
next_parser-create r (m ∷ ms) = refl

loop-messages :
    (answer : List ℕ → Answer) (ms : List Message) (rest : List ℕ) (r : Bool) (p : HttpParser)
    (parsers : List HttpParser) (fuel : ℕ)
    → Takes answer ms rest
    → length (text_of ms rest) < fuel
    → parse_loop fuel answer false (waiting r p (text_of ms rest) parsers)
      ≡ some (ended answer r (next_parser r p ms) rest (parsers ++ parsers_of r p ms))
unfolding parse_loop
loop-messages answer ms rest r p parsers zero t f = absurd (omega arith)
loop-messages answer [] [] r p parsers (suc fuel) t f = rw (append-nil parsers) refl
loop-messages answer [] (x ∷ xs) r p parsers (suc fuel) t f =
    rw (turn-rest answer r p x xs parsers t, append-nil parsers, suc-ne-zero (length xs)) refl
loop-messages answer (m ∷ ms) rest r p parsers (suc fuel) (c, n, a, t) f =
    let input = text_of ms rest in
    let l = length-append m.bytes input in
    let next = execute p (length m.bytes) m.events in
    loop-turn answer false r p (m.bytes ++ input) parsers fuel (omega (arith, l))
    ∙ ap (continue (parse_loop fuel answer false)) (turn-message answer m r p input parsers c a)
    ∙ loop-messages answer ms rest r (create_parser r) (parsers ++ next ∷ []) fuel t
        (omega (arith, l))
    ∙ rw
        (
          next_parser-create r ms,
          append_assoc parsers (next ∷ []) (parsers_of r (create_parser r) ms),
        )
        refl

-- While the connection is not being closed, and where the vendored parser takes each message of the input
-- off its front, and completes none in the rest, onMessage returns: the messages are collected in order, each in a parser of its own, the first
-- in that of the connection; the rest stays in the input; the next handler is called exactly if there
-- is a message; and the connection is shut down exactly if the rest is not empty and has an error.
pub on_message-messages :
    (answer : List ℕ → Answer) (ms : List Message) (rest : List ℕ) (r : Bool) (p : HttpParser)
    → Takes answer ms rest
    → let s = ended answer r (next_parser r p ms) rest (parsers_of r p ms) in
      on_message answer r false p (text_of ms rest) ≡ some (s, pass_on s)
unfolding on_message
on_message-messages answer ms rest r p t =
    rw (loop-messages answer ms rest r p [] (suc (length (text_of ms rest))) t (omega arith)) refl
