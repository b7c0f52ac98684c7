-- ===== src/Http/Messages.antt =====
-- sevent/net/http/HttpParser.cpp: what is left of one parse in the next.
use sevent.Base.{
  ℕ, ◌≡◌, refl, sym, ◌∙◌, ap, List, [], ◌∷◌, ◌++◌, arith, append_assoc, append-nil, set, Option,
  none, some,
}
use sevent.Http.{
  HttpParser, Event, parsing, handle, handle_all, execute, reset, set_field, set_fields, set_params,
  parse_query_param,
}

-- The bytes of the body that the callbacks bring.
abbrev pub body_of : List Event → List ℕ
body_of [] = []
body_of (Event.on_body text ∷ events) = text ++ body_of events
body_of (_ ∷ events) = body_of events

set_params-body :
    (p : HttpParser) (o : Option (List (List ℕ × List ℕ))) → (set_params p o).body ≡ p.body
set_params-body p none = refl
set_params-body p (some params) = refl

set_fields-body :
    (fields : List (ℕ × List ℕ)) (p : HttpParser) → (set_fields p fields).body ≡ p.body
set_fields-body [] p = refl
set_fields-body ((i, text) ∷ fields) p =
    set_fields-body fields (set_field p (i, text))
    ∙ ground (
      arith,
      set_params-body (record p { url_fields = set p.url_fields i text })
          (parse_query_param p.params text),
    )

handle_all-body :
    (events : List Event) (p : HttpParser) → (handle_all p events).body ≡ p.body ++ body_of events
unfolding handle
handle_all-body [] p = sym (append-nil p.body)
handle_all-body (Event.on_url fields ∷ events) p =
    handle_all-body events (handle p (Event.on_url fields))
    ∙ ap (λ b. b ++ body_of events) (ground (arith, set_fields-body fields p))
handle_all-body (Event.on_header_field text ∷ events) p =
    handle_all-body events (handle p (Event.on_header_field text))
handle_all-body (Event.on_header_value text ∷ events) p =
    handle_all-body events (handle p (Event.on_header_value text))
handle_all-body (Event.on_body text ∷ events) p =
    handle_all-body events (handle p (Event.on_body text))
    ∙ append_assoc p.body text (body_of events)
handle_all-body (Event.on_message_complete ∷ events) p =
    handle_all-body events (handle p Event.on_message_complete)

execute-body :
    (p : HttpParser) (n : ℕ) (events : List Event)
    → (execute p n events).body ≡ p.body ++ body_of events
unfolding execute
execute-body p n events = handle_all-body events (record p { state = parsing })

-- `HttpCodec` resets a parser whose message is incomplete, and later gives it the message from its
-- start again: the part of the body that came first is then in the body twice.
pub reset_keeps_body :
    (p : HttpParser) (n m : ℕ) (first all : List Event)
    → (execute (reset (execute p n first)) m all).body ≡ p.body ++ (body_of first ++ body_of all)
unfolding reset
reset_keeps_body p n m first all =
    execute-body (reset (execute p n first)) m all
    ∙ ap (λ b. b ++ body_of all) (execute-body p n first)
    ∙ append_assoc p.body (body_of first) (body_of all)
