-- ===== src/Http/Codec.antt =====
-- sevent/net/http/HttpCodec.cpp, HttpRequestCodec.cpp and HttpResponseCodec.cpp: the messages that are
-- taken from the input of a connection. The buffer is its readable bytes.
pub mod Stream
pub mod Total
mod Tests
use sevent.Base.{
  ℕ, zero, suc, ◌+◌, Bool, true, false, not, ◌&&◌, ◌||◌, Option, none, some, bind_option, List, [],
  ◌∷◌, ◌++◌, ◌==◌, map, length, drop, if◌then◌else◌,
}
use sevent.Http.{HttpParser, Status, parsing, completed, Event, execute, reset, create_parser}

-- What the vendored http-parser does with some bytes, from its first state: how many it takes, what it
-- calls back, and whether it then reports an error. `eof` is what it calls back when the end of the
-- input is told to it, and whether it reports an error after that.
pub record Answer : Type 0 where
  pub count : ℕ
  pub events : List Event
  pub error : Bool
  pub eof : List Event
  pub eof_error : Bool
  pub keep_alive : Bool

-- The context of the connection, its input, and what the loop has collected.
pub record Codec : Type 0 where
  pub is_request : Bool
  pub parser : HttpParser
  pub input : List ℕ
  pub parser_list : List HttpParser
  pub is_shut : Bool

abbrev pub is_complete : HttpParser → Bool
is_complete p = elim p.state [ completed ↦ true | _ ↦ false ]

abbrev pub is_parsing : HttpParser → Bool
is_parsing p = elim p.state [ parsing ↦ true | _ ↦ false ]

-- `conn->getContext("onClose").has_value() && !parser->isKeepAlive()`
abbrev pub tells_eof : Bool → Answer → Bool
tells_eof closing a = closing && not a.keep_alive

unfoldable pub parse : Bool → HttpParser → Answer → HttpParser
parse closing p a =
    let p' = execute p a.count a.events in if tells_eof closing a then execute p' 0 a.eof else p'

-- What is left of the loop's body after the parse: the state, and `isContinue`.
unfoldable pub collect : Bool → Codec → Answer → HttpParser → Codec × Bool
collect closing s a p =
    if is_complete p
    then (
      record s {
        parser = create_parser s.is_request;
        input = drop a.count s.input;
        parser_list = s.parser_list ++ p ∷ [];
      },
      true,
    )
    else (
      record s {
        parser = reset p;
        is_shut = s.is_shut || (if tells_eof closing a then a.eof_error else a.error);
      },
      false,
    )

unfoldable pub turn : (List ℕ → Answer) → Bool → Codec → Codec × Bool
unfolding parse collect
turn answer closing s = let a = answer s.input in collect closing s a (parse closing s.parser a)

abbrev pub continue : (Codec → Option Codec) → Codec × Bool → Option Codec
continue loop (s, true) = loop s
continue loop (s, false) = some s

-- `while (buf->readableBytes() > 0 && isContinue)`; `none` when the fuel runs out.
unfoldable pub parse_loop : ℕ → (List ℕ → Answer) → Bool → Codec → Option Codec
unfolding turn
parse_loop zero answer closing s = none
parse_loop (suc fuel) answer closing s =
    if length s.input == 0
    then some s
    else continue (parse_loop fuel answer closing) (turn answer closing s)

-- `HttpRequest` and `HttpResponse` as they are made of a parser.
pub record HttpMessage : Type 0 where
  pub parser : HttpParser

-- `handleMessage`, the same for requests and responses.
unfoldable pub handle_message : List HttpParser → List HttpMessage
handle_message parsers = map (λ p. record { parser = p }) parsers

-- Whether the next handler is called, and with which messages.
abbrev pub pass_on : Codec → Option (List HttpMessage)
unfolding handle_message
pass_on s = elim s.parser_list [ [] ↦ none | p ∷ ps ↦ some (handle_message (p ∷ ps)) ]

-- `onMessage`. A turn that goes on takes a byte at least, so that the length of the input is fuel enough.
unfoldable pub on_message :
    (List ℕ → Answer)
    → Bool
    → Bool
    → HttpParser
    → List ℕ
    → Option (Codec × Option (List HttpMessage))
unfolding parse_loop
on_message answer is_request closing p input =
    bind_option
      (parse_loop (suc (length input)) answer closing (record {
        is_request = is_request;
        parser = p;
        input = input;
        parser_list = [];
        is_shut = false;
      }))
      (λ s. some (s, pass_on s))

-- `HttpResponseCodec::onClose`: a message that is not complete is parsed again, with the end of the input.
unfoldable pub on_close :
    (List ℕ → Answer) → HttpParser → List ℕ → Option (Option (Codec × Option (List HttpMessage)))
unfolding on_message
on_close answer p input =
    if is_parsing p
    then bind_option (on_message answer false true p input) (λ r. some (some r))
    else some none
