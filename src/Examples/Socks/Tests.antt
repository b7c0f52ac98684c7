-- ===== src/Examples/Socks/Tests.antt =====
-- examples/socks4a/socks4a.cpp: a request by address with a byte behind it, and one by name.
use sevent.Base.{
  suc, ℕ, ◌≢◌, ◌≡◌, ◌⊎◌, refl, Option, none, some, List, [], ◌∷◌, ◌++◌, arith, length, ◌==◌,
  if◌then◌else◌,
}
use sevent.Examples.Socks.{
  Relay, Run, starts, goes, user_sends, connects, step, create_relay, parse_request, granted,
  refused,
}
use sevent.Examples.Socks.Requests.{host_request, parse_request-host}
use sevent.Examples.Socks.Conserved.{IsGranted}
use sevent.Examples.Socks.Delivered.{Run-Kept}

-- A name of one byte is 10.0.0.1.
abbrev resolve : List ℕ → Option (List ℕ)
resolve name = if length name == 1 then some (10 ∷ 0 ∷ 0 ∷ 1 ∷ []) else none

abbrev asks : List ℕ
asks = 4 ∷ 1 ∷ 0 ∷ 80 ∷ 10 ∷ 0 ∷ 0 ∷ 1 ∷ 0 ∷ []

abbrev behind : List ℕ
behind = 7 ∷ []

abbrev asked : Relay
unfolding step
asked = (step resolve create_relay (user_sends (asks ++ behind))).0

abbrev connected : Relay
unfolding step
connected = (step resolve asked connects).0

connected-Run : Run resolve connected (asks ++ behind) behind
unfolding connected asked parse_request
connected-Run = goes connects (goes (user_sends (asks ++ behind)) starts)

Run-Kept_example :
    (request : List ℕ) × (asks ++ behind ≡ request ++ (behind ++ connected.input))
    × (((request ≡ []) × (behind ≡ [])) ⊎ IsGranted resolve request)
Run-Kept_example = Run-Kept resolve connected (asks ++ behind) behind connected-Run

abbrev by_name : List ℕ
by_name = host_request 4 1 (0 ∷ 80 ∷ []) 1 (b'u' ∷ []) (b'h' ∷ []) ++ behind

parse_request-host_example :
    ((ip : List ℕ) × (suc 3 ≡ 4)
      × (suc 0 ≡ 1)
      × (resolve (b'h' ∷ []) ≡ some ip)
      × (parse_request resolve by_name ≡ granted (0 ∷ 80 ∷ []) ip behind))
    ⊎ (((suc 3 ≢ 4) ⊎ ((suc 0 ≢ 1) ⊎ (resolve (b'h' ∷ []) ≡ none)))
        × (parse_request resolve by_name ≡ refused))
parse_request-host_example =
    parse_request-host resolve 4 1 0 80 1 (b'u' ∷ []) (b'h' ∷ []) behind (omega arith) refl refl
      (omega arith)

by_name_granted : parse_request resolve by_name ≡ granted (0 ∷ 80 ∷ []) (10 ∷ 0 ∷ 0 ∷ 1 ∷ []) behind
unfolding parse_request
by_name_granted = refl
