-- ===== src/Http.antt =====
-- sevent/net/http/HttpParser.cpp: what the callbacks of the vendored http-parser collect.
-- A string is a list of bytes. The order in which http-parser calls back is a list of events.
pub mod Query
pub mod Messages
pub mod Codec
pub mod Text
mod Tests
use sevent.Base.{
  ℕ, zero, suc, ◌+◌, ◌≡◌, Bool, true, false, not, ◌&&◌, ◌||◌, Option, none, some, List, [], ◌∷◌,
  ◌++◌, ltb, leb, ◌==◌, replicate, set, length, take, drop, if◌then◌else◌,
}
use sevent.Base.Memory.{add_size}

-- `CaseInsensitiveLess` tells two keys apart by `strcasecmp` of their C strings, in the C locale.
abbrev pub lower : ℕ → ℕ
lower c = if leb 65 c && leb c 90 then c + 32 else c

abbrev pub is_ended : List ℕ → Bool
is_ended [] = true
is_ended (c ∷ cs) = c == 0

abbrev pub same_key : List ℕ → List ℕ → Bool
same_key [] ys = is_ended ys
same_key (x ∷ xs) [] = x == 0
same_key (x ∷ xs) (y ∷ ys) = (lower x == lower y) && ((x == 0) || same_key xs ys)

-- `HttpParser::Map`: `map[key] = value`.
abbrev pub assign : List (List ℕ × List ℕ) → List ℕ → List ℕ → List (List ℕ × List ℕ)
assign [] key value = (key, value) ∷ []
assign ((k, v) ∷ entries) key value =
    if same_key k key then (k, value) ∷ entries else (k, v) ∷ assign entries key value

-- `str.find(c, pos)` in what stands at `pos`: the part before `c`, and what stands behind it.
abbrev pub add_before : ℕ → Option (List ℕ × List ℕ) → Option (List ℕ × List ℕ)
add_before x none = none
add_before x (some (before, behind)) = some (x ∷ before, behind)

abbrev pub cut : ℕ → List ℕ → Option (List ℕ × List ℕ)
cut c [] = none
cut c (x ∷ xs) = if x == c then some ([], xs) else add_before x (cut c xs)

-- `if (key.length() > 0) params[key] = value`
abbrev pub set_param : List (List ℕ × List ℕ) → List ℕ → List ℕ → List (List ℕ × List ℕ)
set_param params [] value = params
set_param params (x ∷ xs) value = assign params (x ∷ xs) value

abbrev pub equals_sign : ℕ
equals_sign = b'='

abbrev pub ampersand : ℕ
ampersand = b'&'

-- The value of a key, up to `&` or to the end, and where the next turn starts.
abbrev pub with_value :
    List (List ℕ × List ℕ)
    → List ℕ
    → List ℕ
    → Option (List ℕ × List ℕ)
    → List (List ℕ × List ℕ) × Option (List ℕ)
with_value params key behind none = (set_param params key behind, none)
with_value params key behind (some (value, next)) = (set_param params key value, some next)

-- A key with nothing behind its `=` is dropped.
abbrev pub take_value :
    List (List ℕ × List ℕ) → List ℕ → List ℕ → List (List ℕ × List ℕ) × Option (List ℕ)
take_value params key [] = (params, none)
take_value params key (x ∷ xs) = with_value params key (x ∷ xs) (cut ampersand (x ∷ xs))

-- One turn of the loop of `parseQueryParam`: what it adds, and where the next turn starts, if any.
abbrev pub turn :
    List (List ℕ × List ℕ) → Option (List ℕ × List ℕ) → List (List ℕ × List ℕ) × Option (List ℕ)
turn params none = (params, none)
turn params (some (key, behind)) = take_value params key behind

abbrev pub go_on :
    (List (List ℕ × List ℕ) → List ℕ → Option (List (List ℕ × List ℕ)))
    → List (List ℕ × List ℕ) × Option (List ℕ)
    → Option (List (List ℕ × List ℕ))
go_on loop (params, none) = some params
go_on loop (params, some next) = loop params next

-- The loop from `rest` on, what stands at `pos`; `none` when the fuel runs out.
unfoldable pub parse_from : ℕ → List (List ℕ × List ℕ) → List ℕ → Option (List (List ℕ × List ℕ))
parse_from zero params rest = none
parse_from (suc fuel) params rest = go_on (parse_from fuel) (turn params (cut equals_sign rest))

-- `rest` gets shorter in each turn, so that the length of the string is fuel enough.
unfoldable pub parse_query_param : List (List ℕ × List ℕ) → List ℕ → Option (List (List ℕ × List ℕ))
unfolding parse_from
parse_query_param params str = parse_from (suc (length str)) params str

pub data Status : Type 0 where
  ready parsing completed : Status

-- `parser`, the state of http-parser, is left out: what it calls back is an argument.
pub record HttpParser : Type 0 where
  pub request : Bool
  pub state : Status
  pub parsed : ℕ
  pub body : List ℕ
  pub field_tmp : List ℕ
  pub url_fields : List (List ℕ)
  pub headers : List (List ℕ × List ℕ)
  pub params : List (List ℕ × List ℕ)

-- `UF_MAX` and `UF_QUERY` of http-parser.
abbrev pub uf_max : ℕ
uf_max = 7

abbrev pub uf_query : ℕ
uf_query = 4

abbrev pub create_parser : Bool → HttpParser
create_parser is_request = record {
  request = is_request;
  state = ready;
  parsed = 0;
  body = [];
  field_tmp = [];
  url_fields = if is_request then replicate uf_max [] else [];
  headers = [];
  params = [];
}

-- A call back. For `on_url` the event has what `http_parser_parse_url` found: the text of each field
-- that is set, in the order of the fields.
pub data Event : Type 0 where
  on_url : List (ℕ × List ℕ) → Event
  on_header_field on_header_value on_body : List ℕ → Event
  on_message_complete : Event

abbrev pub set_params : HttpParser → Option (List (List ℕ × List ℕ)) → HttpParser
set_params p none = p
set_params p (some params) = record p { params = params }

abbrev pub set_field : HttpParser → ℕ × List ℕ → HttpParser
set_field p (i, text) =
    let p' = record p { url_fields = set p.url_fields i text } in
    if i == uf_query then set_params p' (parse_query_param p.params text) else p'

abbrev pub set_fields : HttpParser → List (ℕ × List ℕ) → HttpParser
set_fields p [] = p
set_fields p (f ∷ fields) = set_fields (set_field p f) fields

unfoldable pub handle : HttpParser → Event → HttpParser
handle p (on_url fields) = if leb uf_max (length p.url_fields) then set_fields p fields else p
handle p (on_header_field text) = record p { field_tmp = text }
handle p (on_header_value text) = record p { headers = assign p.headers p.field_tmp text }
handle p (on_body text) = record p { body = p.body ++ text }
handle p on_message_complete = record p { state = completed }

abbrev pub handle_all : HttpParser → List Event → HttpParser
handle_all p [] = p
handle_all p (e ∷ events) = handle_all (handle p e) events

-- `execute`: http-parser takes `count` bytes, and calls back.
unfoldable pub execute : HttpParser → ℕ → List Event → HttpParser
unfolding handle
execute p count events =
    let p' = handle_all (record p { state = parsing }) events in
    record p' { parsed = add_size p'.parsed count }

-- `empty()` asks whether a container is empty, and changes nothing.
unfoldable pub reset : HttpParser → HttpParser
reset p = record p { parsed = 0 }

-- `swap`: the members change places, and http-parser's pointers to its owners are put back.
unfoldable pub swap : HttpParser → HttpParser → HttpParser × HttpParser
swap p other = (other, p)
