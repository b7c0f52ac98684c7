-- ===== src/Http/Text/Reading.antt =====
-- sevent/net/http/HttpRequest.cpp: what a receiver reads of the text of a request, field by field.
use sevent.Base.{
  ℕ, ◌≡◌, refl, ap, ◌∙◌, Bool, Bool-cases, inl, inr, true, false, ◌&&◌, Option, none, some, List,
  [], ◌∷◌, ◌++◌, append_assoc, ◌==◌, length, arith, if◌then◌else◌, bind_option,
}
use sevent.Base.Int.{pos}
use sevent.Logging.Decimal.{read_integer}
use sevent.Http.{cut}
use sevent.Http.Query.{lacks, cut_at}
use sevent.Http.Text.{
  HttpVersion, HttpRequest, build_request, request_line, to_string, header_line, length_line,
  version_to_string,
}
use sevent.Http.Text.Head.{read_head, no_cr, no_cr_in, lines_of, build_request-Split}

-- A header is read as its key, up to the first colon, and behind a space its value.
abbrev after_colon : Option (List ℕ × List ℕ) → Option (List ℕ × List ℕ)
after_colon none = none
after_colon (some (key, [])) = none
after_colon (some (key, c ∷ value)) = if c == 32 then some (key, value) else none

abbrev pub read_headers : List (List ℕ) → Option (List (List ℕ × List ℕ))
read_headers [] = some []
read_headers (line ∷ lines) =
    let rest = read_headers lines in
    bind_option (after_colon (cut 58 line))
      (λ item. bind_option rest (λ items. some (item ∷ items)))

-- The first line is read as its three words.
abbrev pub read_words : List ℕ → Option (List ℕ × List ℕ × List ℕ)
read_words line =
    bind_option (cut 32 line) (λ m. bind_option (cut 32 m.1) (λ u. some (m.0, u.0, u.1)))

abbrev pub version_name : HttpVersion → List ℕ
version_name HttpVersion.http_1_0 = b'H' ∷ b'T' ∷ b'T' ∷ b'P' ∷ b'/' ∷ b'1' ∷ 46 ∷ b'0' ∷ []
version_name HttpVersion.http_1_1 = b'H' ∷ b'T' ∷ b'T' ∷ b'P' ∷ b'/' ∷ b'1' ∷ 46 ∷ b'1' ∷ []
version_name HttpVersion.http_2_0 = b'H' ∷ b'T' ∷ b'T' ∷ b'P' ∷ b'/' ∷ b'2' ∷ 46 ∷ b'0' ∷ []

-- "Content-Length"
abbrev pub length_key : List ℕ
length_key =
    b'C' ∷ b'o' ∷ b'n' ∷ b't' ∷ b'e' ∷ b'n' ∷ b't' ∷ 45 ∷ b'L' ∷ b'e' ∷ b'n' ∷ b'g' ∷ b't' ∷ b'h'
    ∷ []

-- What a receiver reads: the words of the first line, the headers with the length of a body that is not
-- empty behind them, and the body; the length is read as a decimal number.
pub record Received (text method url version : List ℕ) (headers : List (List ℕ × List ℕ))
    (body : List ℕ) : Type 0 where
  pub first : List ℕ
  pub lines : List (List ℕ)
  pub digits : List ℕ
  pub split : read_head false [] text ≡ some (first ∷ lines, body)
  pub words_read : read_words first ≡ some (method, url, version)
  pub headers_read :
      read_headers lines
      ≡ some (headers ++ (if length body == 0 then [] else (length_key, digits) ∷ []))
  pub length_read : read_integer digits ≡ pos (length body)

-- No key has a colon.
abbrev pub no_colon_in : List (List ℕ × List ℕ) → Bool
no_colon_in [] = true
no_colon_in ((key, value) ∷ items) = lacks 58 key && no_colon_in items

header-read :
    (key value : List ℕ)
    → lacks 58 key ≡ true
    → after_colon (cut 58 (header_line (key, value))) ≡ some (key, value)
header-read key value h = rw (cut_at 58 key (32 ∷ value) h) refl

length-read :
    (body : List ℕ)
    → after_colon (cut 58 (length_line body)) ≡ some (length_key, to_string (length body))
length-read body = ap after_colon (cut_at 58 length_key (32 ∷ to_string (length body)) refl)

one-read :
    (line : List ℕ) (item : List ℕ × List ℕ)
    → after_colon (cut 58 line) ≡ some item
    → read_headers (line ∷ []) ≡ some (item ∷ [])
one-read line item e = rw e refl

headers-read :
    (headers : List (List ℕ × List ℕ)) (body : List ℕ)
    → no_colon_in headers ≡ true
    → read_headers (lines_of headers body)
      ≡ some
          (headers ++ (if length body == 0 then [] else (length_key, to_string (length body)) ∷ []))
headers-read [] body h = elim (Bool-cases (length body == 0)) [
  | inl e ↦ rw e refl
  | inr e ↦
      rw e (one-read (length_line body) (length_key, to_string (length body)) (length-read body))
]
headers-read ((key, value) ∷ items) body h =
    let k : lacks 58 key ≡ true = ground (arith, h) in
    let rest : no_colon_in items ≡ true = ground (arith, h) in
    rw (header-read key value k, headers-read items body rest) refl

version-name : (v : HttpVersion) → version_to_string v ≡ version_name v
version-name HttpVersion.http_1_0 = refl
version-name HttpVersion.http_1_1 = refl
version-name HttpVersion.http_2_0 = refl

words-read :
    (method_str : ℕ → List ℕ) (r : HttpRequest)
    → lacks 32 (method_str r.http_method) ≡ true
    → lacks 32 r.url ≡ true
    → read_words (request_line method_str r)
      ≡ some (method_str r.http_method, r.url, version_name r.http_version)
words-read method_str r m u =
    let method = method_str r.http_method in
    let version = version_to_string r.http_version in
    let line : request_line method_str r ≡ method ++ 32 ∷ (r.url ++ 32 ∷ version) =
      append_assoc method (32 ∷ []) ((r.url ++ 32 ∷ []) ++ version)
      ∙ ap (λ xs. method ++ 32 ∷ xs) (append_assoc r.url (32 ∷ []) version) in
    rw
      (
        line,
        cut_at 32 method (r.url ++ 32 ∷ version) m,
        cut_at 32 r.url version u,
        version-name r.http_version,
      )
      refl

-- A request whose method, target, keys and values have no CR, whose method and target have no space, and
-- whose keys have no colon: a receiver who splits what buildString returns at each CRLF reads from its
-- first line the method, the target and the version, then each key with its value in order, then, if the
-- body is not empty, "Content-Length" with digits that are read as its length, and behind the empty line
-- exactly the body.
pub build_request-Received :
    (method_str : ℕ → List ℕ) (r : HttpRequest)
    → no_cr (method_str r.http_method) ≡ true
    → no_cr r.url ≡ true
    → no_cr_in r.headers ≡ true
    → lacks 32 (method_str r.http_method) ≡ true
    → lacks 32 r.url ≡ true
    → no_colon_in r.headers ≡ true
    → Received
        (build_request method_str r)
        (method_str r.http_method)
        r.url
        (version_name r.http_version)
        r.headers
        r.body
build_request-Received method_str r m u h m' u' h' =
    let s = build_request-Split method_str r m u h in
    record {
      first = request_line method_str r;
      lines = lines_of r.headers r.body;
      digits = to_string (length r.body);
      split = s.lines_read;
      words_read = words-read method_str r m' u';
      headers_read = headers-read r.headers r.body h';
      length_read = s.length_read;
    }
