-- ===== src/Http/Text/Tests.antt =====
-- Runs of sevent/net/http/HttpRequest.cpp, and the theorem at one of them.
use sevent.Base.{ℕ, refl, List, [], ◌∷◌}
use sevent.Http.Text.{HttpVersion, HttpRequest, build_request}
use sevent.Http.Text.Reading.{Received, version_name, build_request-Received}

abbrev methods : ℕ → List ℕ
methods code = b'G' ∷ b'E' ∷ b'T' ∷ []

-- GET / with the header "a: b" and the body "xyz"
abbrev request : HttpRequest
request = record {
  http_version = HttpVersion.http_1_1;
  http_method = 1;
  url = 47 ∷ [];
  headers = (97 ∷ [], 98 ∷ []) ∷ [];
  body = 120 ∷ 121 ∷ 122 ∷ [];
}

build_request-Received_example :
    Received
      (build_request methods request)
      (b'G' ∷ b'E' ∷ b'T' ∷ [])
      (47 ∷ [])
      (version_name HttpVersion.http_1_1)
      ((97 ∷ [], 98 ∷ []) ∷ [])
      (120 ∷ 121 ∷ 122 ∷ [])
build_request-Received_example =
    build_request-Received methods request refl refl refl refl refl refl
