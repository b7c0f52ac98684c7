-- ===== src/Http/Text.antt =====
-- sevent/net/http/HttpRequest.cpp, HttpResponse.cpp and http.cpp: messages as text.
pub mod Head
pub mod Reading
mod Tests
use sevent.Base.{
  ℕ, zero, suc, ◌+◌, Bool, true, false, Option, none, some, List, [], ◌∷◌, ◌++◌, ◌==◌, length,
  get_elem?, if◌then◌else◌,
}
use sevent.Base.Int.{pos}
use sevent.Logging.{convert}

pub data HttpVersion : Type 0 where
  http_1_0 http_1_1 http_2_0 : HttpVersion

-- "HTTP/1.0", "HTTP/1.1", "HTTP/2.0"
abbrev version_text : ℕ → ℕ → List ℕ
version_text major minor = b'H' ∷ b'T' ∷ b'T' ∷ b'P' ∷ b'/' ∷ (48 + major) ∷ 46 ∷ (48 + minor) ∷ []

abbrev pub version_to_string : HttpVersion → List ℕ
version_to_string http_1_0 = version_text 1 0
version_to_string http_1_1 = version_text 1 1
version_to_string http_2_0 = version_text 2 0

abbrev pub crlf : List ℕ
crlf = 13 ∷ 10 ∷ []

-- `std::to_string` of an unsigned number: its decimal digits.
unfoldable pub to_string : ℕ → List ℕ
unfolding convert
to_string n = convert (pos n)

-- `item.first + ": " + item.second`
abbrev pub header_line : List ℕ × List ℕ → List ℕ
header_line (key, value) = key ++ 58 ∷ 32 ∷ value

abbrev pub header_lines : List (List ℕ × List ℕ) → List ℕ
header_lines [] = []
header_lines (item ∷ items) = (header_line item ++ crlf) ++ header_lines items

-- "Content-Length: "
abbrev pub content_length : List ℕ
content_length =
    b'C' ∷ b'o' ∷ b'n' ∷ b't' ∷ b'e' ∷ b'n' ∷ b't' ∷ 45 ∷ b'L' ∷ b'e' ∷ b'n' ∷ b'g' ∷ b't' ∷ b'h'
    ∷ 58 ∷ 32 ∷ []

abbrev pub length_line : List ℕ → List ℕ
length_line body = content_length ++ to_string (length body)

-- What stands behind the first line: the headers, the length of a body that is not empty, and the body.
unfoldable pub build_rest : List (List ℕ × List ℕ) → List ℕ → List ℕ
build_rest headers body =
    (header_lines headers ++ (if length body == 0 then [] else length_line body ++ crlf))
    ++ (crlf ++ body)

pub record HttpRequest : Type 0 where
  pub http_version : HttpVersion
  pub http_method : ℕ
  pub url : List ℕ
  pub headers : List (List ℕ × List ℕ)
  pub body : List ℕ

pub record HttpResponse : Type 0 where
  pub http_version : HttpVersion
  pub http_status : ℕ
  pub headers : List (List ℕ × List ℕ)
  pub body : List ℕ

-- `http_method_str` and `http_status_str` are those of the vendored parser.
abbrev pub request_line : (ℕ → List ℕ) → HttpRequest → List ℕ
request_line method_str r =
    (method_str r.http_method ++ 32 ∷ [])
    ++ ((r.url ++ 32 ∷ []) ++ version_to_string r.http_version)

abbrev pub status_line : (ℕ → List ℕ) → HttpResponse → List ℕ
status_line status_str r =
    (version_to_string r.http_version ++ 32 ∷ [])
    ++ ((to_string r.http_status ++ 32 ∷ []) ++ status_str r.http_status)

unfoldable pub build_request : (ℕ → List ℕ) → HttpRequest → List ℕ
unfolding build_rest
build_request method_str r = (request_line method_str r ++ crlf) ++ build_rest r.headers r.body

unfoldable pub build_response : (ℕ → List ℕ) → HttpResponse → List ℕ
unfolding build_rest
build_response status_str r = (status_line status_str r ++ crlf) ++ build_rest r.headers r.body
