-- ===== src/Http/Tests.antt =====
-- Runs of sevent/net/http/HttpParser.cpp, and the theorems at them.
use sevent.Base.{ℕ, ◌≡◌, refl, some, List, [], ◌∷◌}
use sevent.Http.{parse_query_param}
use sevent.Http.Query.{parse_query_param-print}

-- "p=1" and "s=2"
abbrev entries : List (List ℕ × List ℕ)
entries = (112 ∷ [], 49 ∷ []) ∷ (115 ∷ [], 50 ∷ []) ∷ []

parse_query_param-print_example :
    parse_query_param [] (112 ∷ 61 ∷ 49 ∷ 38 ∷ 115 ∷ 61 ∷ 50 ∷ []) ≡ some entries
parse_query_param-print_example = parse_query_param-print entries [] refl

-- The body 7 8 9, of which 7 came with the first read.
