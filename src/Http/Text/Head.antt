-- ===== src/Http/Text/Head.antt =====
-- sevent/net/http/HttpRequest.cpp and HttpResponse.cpp: what a receiver reads of a message.
use sevent.Base.{
  ℕ, ◌≡◌, refl, ap, sym, ◌∙◌, length-append, Bool, true, false, not, ◌&&◌, Bool-cases, inl, inr,
  Option, none, some, List, [], ◌∷◌, ◌++◌, append_assoc, append-nil, map, ◌==◌, length, arith,
  if◌then◌else◌,
}
use sevent.Base.Int.{pos}
use sevent.Logging.{convert}
use sevent.Logging.Decimal.{read_integer, read_integer-convert, all_digits, convert-digits}
use sevent.Http.Text.{
  crlf, to_string, header_line, header_lines, content_length, length_line, build_rest, HttpVersion,
  version_to_string, HttpRequest, HttpResponse, request_line, status_line, build_request,
  build_response,
}

-- A receiver splits its input at each CRLF, until a line is empty; what is behind that is the body. A
-- CR with no LF behind it is refused.
abbrev add_line : List ℕ → Option (List (List ℕ) × List ℕ) → Option (List (List ℕ) × List ℕ)
add_line line none = none
add_line line (some (lines, body)) = some (line ∷ lines, body)

abbrev pub read_head : Bool → List ℕ → List ℕ → Option (List (List ℕ) × List ℕ)
read_head cr line [] = none
read_head true line (c ∷ cs) =
    let rest = read_head false [] cs in
    if c == 10 then (if length line == 0 then some ([], cs) else add_line line rest) else none
read_head false line (c ∷ cs) =
    let ended = read_head true line cs in
    let longer = read_head false (line ++ c ∷ []) cs in if c == 13 then ended else longer

abbrev pub no_cr : List ℕ → Bool
no_cr [] = true
no_cr (c ∷ cs) = not (c == 13) && no_cr cs

abbrev pub no_cr_all : List (List ℕ) → Bool
no_cr_all [] = true
no_cr_all (l ∷ ls) = no_cr l && no_cr_all ls

read_head-line :
    (text line rest : List ℕ)
    → no_cr text ≡ true
    → read_head false line (text ++ 13 ∷ 10 ∷ rest) ≡ (
        if length (line ++ text) == 0
        then some ([], rest)
        else add_line (line ++ text) (read_head false [] rest))
read_head-line [] line rest h = rw (append-nil line) refl
read_head-line (c ∷ cs) line rest h =
    let other : (c == 13) ≡ false = ground (arith, h) in
    rw other (
      read_head-line cs (line ++ c ∷ []) rest (ground (arith, h))
      ∙ rw (append_assoc line (c ∷ []) cs) refl)

abbrev pub all_filled : List (List ℕ) → Bool
all_filled [] = true
all_filled (l ∷ ls) = not (length l == 0) && all_filled ls

abbrev join : List (List ℕ) → List ℕ → List ℕ
join [] body = 13 ∷ 10 ∷ body
join (l ∷ ls) body = l ++ 13 ∷ 10 ∷ join ls body

read_head-join :
    (lines : List (List ℕ)) (body : List ℕ)
    → no_cr_all lines ≡ true
    → all_filled lines ≡ true
    → read_head false [] (join lines body) ≡ some (lines, body)
read_head-join [] body h f = refl
read_head-join (l ∷ ls) body h f =
    let filled : (length l == 0) ≡ false = ground (arith, f) in
    rw
      (
        read_head-line l [] (join ls body) (ground (arith, h)),
        filled,
        read_head-join ls body (ground (arith, h)) (ground (arith, f)),
      )
      refl

-- The lines behind the first one.
abbrev pub lines_of : List (List ℕ × List ℕ) → List ℕ → List (List ℕ)
lines_of headers body =
    map header_line headers ++ (if length body == 0 then [] else length_line body ∷ [])

abbrev pub no_cr_in : List (List ℕ × List ℕ) → Bool
no_cr_in [] = true
no_cr_in ((key, value) ∷ items) = (no_cr key && no_cr value) && no_cr_in items

no_cr-append : (xs ys : List ℕ) → no_cr (xs ++ ys) ≡ (no_cr xs && no_cr ys)
no_cr-append [] ys = refl
no_cr-append (x ∷ xs) ys = ground (arith, no_cr-append xs ys)

build_rest-join :
    (headers : List (List ℕ × List ℕ)) (body : List ℕ)
    → build_rest headers body ≡ join (lines_of headers body) body
unfolding build_rest
build_rest-join [] body = elim (Bool-cases (length body == 0)) [
  | inl e ↦ rw e refl
  | inr e ↦ rw e (append_assoc (length_line body) crlf (crlf ++ body))
]
build_rest-join ((key, value) ∷ items) body =
    let line = header_line (key, value) in
    let h = header_lines items in
    let o = if length body == 0 then [] else length_line body ++ crlf in
    append_assoc ((line ++ crlf) ++ h) o (crlf ++ body)
    ∙ append_assoc (line ++ crlf) h (o ++ (crlf ++ body))
    ∙ append_assoc line crlf (h ++ (o ++ (crlf ++ body)))
    ∙ ap (λ r. line ++ 13 ∷ 10 ∷ r)
        (sym (append_assoc h o (crlf ++ body)) ∙ build_rest-join items body)

digits-no_cr : (cs : List ℕ) → all_digits cs ≡ true → no_cr cs ≡ true
digits-no_cr [] h = refl
digits-no_cr (c ∷ cs) h = ground (arith, h, digits-no_cr cs (ground (arith, h)))

length_line-no_cr : (body : List ℕ) → no_cr (length_line body) ≡ true
unfolding to_string
length_line-no_cr body =
    rw (no_cr-append content_length (convert (pos (length body))))
      (digits-no_cr (convert (pos (length body))) (convert-digits (length body)))

lines_of-no_cr :
    (headers : List (List ℕ × List ℕ)) (body : List ℕ)
    → no_cr_in headers ≡ true
    → no_cr_all (lines_of headers body) ≡ true
lines_of-no_cr [] body h = elim (Bool-cases (length body == 0)) [
  | inl e ↦ rw e refl
  | inr e ↦ rw (e, length_line-no_cr body) refl
]
lines_of-no_cr ((key, value) ∷ items) body h =
    let k : no_cr key ≡ true = ground (arith, h) in
    let v : no_cr value ≡ true = ground (arith, h) in
    rw (no_cr-append key (58 ∷ 32 ∷ value), k, v, lines_of-no_cr items body (ground (arith, h)))
      refl

lines_of-all_filled :
    (headers : List (List ℕ × List ℕ)) (body : List ℕ) → all_filled (lines_of headers body) ≡ true
lines_of-all_filled [] body = elim (Bool-cases (length body == 0)) [
  | inl e ↦ rw e refl
  | inr e ↦
      let l = length-append content_length (to_string (length body)) in
      let filled : (length (length_line body) == 0) ≡ false = ground (arith, l) in
      rw (e, filled) refl
]
lines_of-all_filled ((key, value) ∷ items) body =
    let filled : (length (key ++ 58 ∷ 32 ∷ value) == 0) ≡ false =
      ground (arith, length-append key (58 ∷ 32 ∷ value)) in
    rw (filled, lines_of-all_filled items body) refl

-- A message as lines and a body, and the digits of its length.
pub record Split (text first : List ℕ) (headers : List (List ℕ × List ℕ)) (body : List ℕ)
    : Type 0 where
  pub lines_read : read_head false [] text ≡ some (first ∷ lines_of headers body, body)
  pub length_read : read_integer (to_string (length body)) ≡ pos (length body)

build-Split :
    (first : List ℕ) (headers : List (List ℕ × List ℕ)) (body : List ℕ)
    → no_cr first ≡ true
    → (length first == 0) ≡ false
    → no_cr_in headers ≡ true
    → Split ((first ++ crlf) ++ build_rest headers body) first headers body
unfolding to_string
build-Split first headers body c f h = record {
  lines_read =
      rw (build_rest-join headers body, append_assoc first crlf (join (lines_of headers body) body))
        (read_head-join (first ∷ lines_of headers body) body
          (rw (c, lines_of-no_cr headers body h) refl)
          (rw (f, lines_of-all_filled headers body) refl));
  length_read = read_integer-convert (pos (length body));
}

version_to_string-no_cr : (v : HttpVersion) → no_cr (version_to_string v) ≡ true
version_to_string-no_cr HttpVersion.http_1_0 = refl
version_to_string-no_cr HttpVersion.http_1_1 = refl
version_to_string-no_cr HttpVersion.http_2_0 = refl

request_line-no_cr :
    (method_str : ℕ → List ℕ) (r : HttpRequest)
    → no_cr (method_str r.http_method) ≡ true
    → no_cr r.url ≡ true
    → no_cr (request_line method_str r) ≡ true
request_line-no_cr method_str r m u =
    let method = method_str r.http_method in
    let version = version_to_string r.http_version in
    rw
      (
        no_cr-append (method ++ 32 ∷ []) ((r.url ++ 32 ∷ []) ++ version),
        no_cr-append method (32 ∷ []),
        no_cr-append (r.url ++ 32 ∷ []) version,
        no_cr-append r.url (32 ∷ []),
        m,
        u,
        version_to_string-no_cr r.http_version,
      )
      refl

status_line-no_cr :
    (status_str : ℕ → List ℕ) (r : HttpResponse)
    → no_cr (status_str r.http_status) ≡ true
    → no_cr (status_line status_str r) ≡ true
unfolding to_string
status_line-no_cr status_str r m =
    let status = status_str r.http_status in
    let code = convert (pos r.http_status) in
    let version = version_to_string r.http_version in
    rw
      (
        no_cr-append (version ++ 32 ∷ []) ((code ++ 32 ∷ []) ++ status),
        no_cr-append version (32 ∷ []),
        no_cr-append (code ++ 32 ∷ []) status,
        no_cr-append code (32 ∷ []),
        m,
        digits-no_cr code (convert-digits r.http_status),
        version_to_string-no_cr r.http_version,
      )
      refl

filled_by : (xs : List ℕ) (c : ℕ) (ys zs : List ℕ) → (length ((xs ++ c ∷ ys) ++ zs) == 0) ≡ false
filled_by xs c ys zs = ground (arith, length-append (xs ++ c ∷ ys) zs, length-append xs (c ∷ ys))

-- A request whose first line, keys and values have no CR: split at each CRLF, its text is the first
-- line, the lines of its headers and of its length, and behind the empty line the body.
pub build_request-Split :
    (method_str : ℕ → List ℕ) (r : HttpRequest)
    → no_cr (method_str r.http_method) ≡ true
    → no_cr r.url ≡ true
    → no_cr_in r.headers ≡ true
    → Split (build_request method_str r) (request_line method_str r) r.headers r.body
unfolding build_request
build_request-Split method_str r m u h =
    build-Split (request_line method_str r) r.headers r.body (request_line-no_cr method_str r m u)
      (filled_by (method_str r.http_method) 32 []
        ((r.url ++ 32 ∷ []) ++ version_to_string r.http_version))
      h

-- The same for a response, whose first line has the status.
pub build_response-Split :
    (status_str : ℕ → List ℕ) (r : HttpResponse)
    → no_cr (status_str r.http_status) ≡ true
    → no_cr_in r.headers ≡ true
    → Split (build_response status_str r) (status_line status_str r) r.headers r.body
unfolding build_response
build_response-Split status_str r m h =
    build-Split (status_line status_str r) r.headers r.body (status_line-no_cr status_str r m)
      (filled_by (version_to_string r.http_version) 32 []
        ((to_string r.http_status ++ 32 ∷ []) ++ status_str r.http_status))
      h
