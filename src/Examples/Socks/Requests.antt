-- ===== src/Examples/Socks/Requests.antt =====
-- examples/socks4a/socks4a.cpp: which bytes are a request.
use sevent.Base.{
  ℕ, ◌⊎◌, ◌≢◌, Option-cases, suc, ◌+◌, subst, ◌≡◌, ◌≤◌, refl, sym, ap, ◌∙◌, Bool, Bool-cases, inl,
  inr, true, false, ◌&&◌, Option, none, some, List, [], ◌∷◌, ◌++◌, ◌==◌, length, ltb, arith,
  append_assoc, length-append,
}
use sevent.Http.{cut, add_before}
use sevent.Examples.Hub.{has}
use sevent.Examples.Socks.{
  refused, granted, decide, with_host, with_user, parse_fields, parse_request, is_socks4a,
}

add_before-found :
    (x : ℕ) (found : Option (List ℕ × List ℕ)) (before behind : List ℕ)
    → add_before x found ≡ some (before, behind)
    → (b : List ℕ) × (before ≡ x ∷ b) × (found ≡ some (b, behind))
add_before-found x none before behind e = cc
add_before-found x (some (b, found)) before behind e = (b, cc, cc)

cut_here :
    (c x : ℕ) (xs before behind : List ℕ)
    → (x == c) ≡ true
    → cut c (x ∷ xs) ≡ some (before, behind)
    → x ∷ xs ≡ before ++ c ∷ behind
cut_here c x xs before behind here =
    let same : x ≡ c = ground (arith, here) in
    rw here (λ e.
      let nothing : [] ≡ before = cc in
      let rest : xs ≡ behind = cc in rw (same, ← nothing, ← rest) refl)

cut_later :
    (c x : ℕ) (xs before behind : List ℕ)
    → (x == c) ≡ false
    → cut c (x ∷ xs) ≡ some (before, behind)
    → (b : List ℕ) × (before ≡ x ∷ b) × (cut c xs ≡ some (b, behind))
cut_later c x xs before behind later = rw later (λ e. add_before-found x (cut c xs) before behind e)

pub cut_lem :
    (c : ℕ) (xs before behind : List ℕ)
    → cut c xs ≡ some (before, behind)
    → xs ≡ before ++ c ∷ behind
cut_lem c [] before behind e = cc
cut_lem c (x ∷ xs) before behind e = elim (Bool-cases (x == c)) [
  | inl here ↦ cut_here c x xs before behind here e
  | inr later ↦
      let (b, starts, found) = cut_later c x xs before behind later e in
      rw starts (ap (λ ys. x ∷ ys) (cut_lem c xs b behind found))
]

cut-text :
    (c : ℕ) (text behind : List ℕ)
    → has text c ≡ false
    → cut c (text ++ c ∷ behind) ≡ some (text, behind)
cut-text c [] behind plain = let same : (c == c) ≡ true = ground arith in rw same refl
cut-text c (x ∷ text) behind plain =
    let apart : (x == c) ≡ false = ground (arith, plain) in
    let rest : has text c ≡ false = ground (arith, plain) in
    rw (apart, cut-text c text behind rest) refl

fits_lem :
    (resolve : List ℕ → Option (List ℕ)) (input : List ℕ)
    → length input ≤ 128
    → 9 ≤ length input
    → parse_request resolve input ≡ parse_fields resolve input
unfolding parse_request
fits_lem resolve input most least =
    let fits : ltb 128 (length input) ≡ false = ground (arith, most) in
    let whole : ltb 8 (length input) ≡ true = ground (arith, least) in rw (fits, whole) refl

differs : (x y : ℕ) → (x == y) ≡ false → x ≢ y
differs x y e = λ same. ground (arith, e, same)

-- The request for a host by its name: the version, the command, the port, an address that is none, the
-- user and the name, each with its NUL.
abbrev pub host_request : ℕ → ℕ → List ℕ → ℕ → List ℕ → List ℕ → List ℕ
host_request ver cmd port mark user hostname =
    ver ∷ cmd ∷ (port ++ 0 ∷ 0 ∷ 0 ∷ mark ∷ (user ++ 0 ∷ (hostname ++ 0 ∷ [])))

host_fields :
    (resolve : List ℕ → Option (List ℕ)) (ver cmd p₁ p₂ mark : ℕ) (user hostname rest : List ℕ)
    → has user 0 ≡ false
    → has hostname 0 ≡ false
    → length (host_request ver cmd (p₁ ∷ p₂ ∷ []) mark user hostname ++ rest) ≤ 128
    → parse_request resolve (host_request ver cmd (p₁ ∷ p₂ ∷ []) mark user hostname ++ rest)
      ≡ decide ((ver == 4) && (cmd == 1)) (p₁ ∷ p₂ ∷ []) (resolve hostname) rest
host_fields resolve ver cmd p₁ p₂ mark user hostname rest u h short =
    let fields = ver ∷ cmd ∷ p₁ ∷ p₂ ∷ 0 ∷ 0 ∷ 0 ∷ mark ∷ [] in
    let tail = user ++ 0 ∷ (hostname ++ 0 ∷ rest) in
    let body : (user ++ 0 ∷ (hostname ++ 0 ∷ [])) ++ rest ≡ tail =
      append_assoc user (0 ∷ (hostname ++ 0 ∷ [])) rest
      ∙ ap (λ xs. user ++ 0 ∷ xs) (append_assoc hostname (0 ∷ []) rest) in
    let input : host_request ver cmd (p₁ ∷ p₂ ∷ []) mark user hostname ++ rest ≡ fields ++ tail =
      ap (λ xs. fields ++ xs) body in
    let size : length tail ≡ length user + suc (length (hostname ++ 0 ∷ rest)) =
      length-append user (0 ∷ (hostname ++ 0 ∷ rest)) in
    let most : length (fields ++ tail) ≤ 128 = subst (λ xs. length xs ≤ 128) input short in
    ap (parse_request resolve) input
    ∙ fits_lem resolve (fields ++ tail) most (omega (arith, size))
    ∙ rw (cut-text 0 user (hostname ++ 0 ∷ rest) u, cut-text 0 hostname rest h) refl

-- A request by name, with an address 0.0.0.x whose last byte is not 0, whose user and name have no NUL,
-- and that is at most 128 bytes with what came behind it: it is granted, with its port, the address that
-- resolve gives for its name and what came behind it, if its version is 4, its command is 1 and there is
-- such an address, and refused if one of the three fails.
pub parse_request-host :
    (resolve : List ℕ → Option (List ℕ)) (ver cmd p₁ p₂ mark : ℕ) (user hostname rest : List ℕ)
    → 1 ≤ mark
    → has user 0 ≡ false
    → has hostname 0 ≡ false
    → length (host_request ver cmd (p₁ ∷ p₂ ∷ []) mark user hostname ++ rest) ≤ 128
    → ((ip : List ℕ) × (ver ≡ 4)
        × (cmd ≡ 1)
        × (resolve hostname ≡ some ip)
        × (parse_request resolve (host_request ver cmd (p₁ ∷ p₂ ∷ []) mark user hostname ++ rest)
            ≡ granted (p₁ ∷ p₂ ∷ []) ip rest))
      ⊎ (((ver ≢ 4) ⊎ ((cmd ≢ 1) ⊎ (resolve hostname ≡ none)))
          × (parse_request resolve (host_request ver cmd (p₁ ∷ p₂ ∷ []) mark user hostname ++ rest)
              ≡ refused))
parse_request-host resolve ver cmd p₁ p₂ mark user hostname rest m u h short =
    let parsed = host_fields resolve ver cmd p₁ p₂ mark user hostname rest u h short in
    elim (Option-cases (resolve hostname)) [
      | inl nowhere ↦ inr (inr (inr nowhere), parsed ∙ rw nowhere refl)
      | inr (ip, found) ↦ elim (Bool-cases ((ver == 4) && (cmd == 1))) [
        | inl known ↦ inl (
          ip,
          ground (arith, known),
          ground (arith, known),
          found,
          parsed ∙ rw (known, found) refl,
        )
        | inr unknown ↦ elim (Bool-cases (ver == 4)) [
          | inl four ↦
              let other : (cmd == 1) ≡ false = ground (arith, four, unknown) in
              inr (inr (inl (differs cmd 1 other)), parsed ∙ rw (unknown, found) refl)
          | inr other ↦ inr (inl (differs ver 4 other), parsed ∙ rw (unknown, found) refl)
        ]
      ]
    ]

decide-rest :
    (okay : Bool) (port : List ℕ) (found : Option (List ℕ)) (behind p ip rest : List ℕ)
    → decide okay port found behind ≡ granted p ip rest
    → behind ≡ rest
decide-rest okay port none behind p ip rest e = cc
decide-rest false port (some found) behind p ip rest e = cc
decide-rest true port (some found) behind p ip rest e = cc

with_host-rest :
    (resolve : List ℕ → Option (List ℕ)) (okay : Bool) (port : List ℕ)
    (found : Option (List ℕ × List ℕ)) (p ip rest : List ℕ)
    → with_host resolve okay port found ≡ granted p ip rest
    → (hostname : List ℕ) × (found ≡ some (hostname, rest))
with_host-rest resolve okay port none p ip rest e = cc
with_host-rest resolve okay port (some (hostname, behind)) p ip rest e = (
  hostname,
  ap (λ xs. some (hostname, xs)) (decide-rest okay port (resolve hostname) behind p ip rest e),
)

with_user-rest :
    (resolve : List ℕ → Option (List ℕ)) (okay : Bool) (port address : List ℕ)
    (found : Option (List ℕ × List ℕ)) (p ip rest : List ℕ)
    → with_user resolve okay port address found ≡ granted p ip rest
    → (user behind before : List ℕ) × (found ≡ some (user, behind)) × (behind ≡ before ++ rest)
with_user-rest resolve okay port address none p ip rest = λ e. cc
with_user-rest resolve okay port address (some (user, behind)) p ip rest =
    elim (Bool-cases (is_socks4a address)) [
      | inl named ↦ rw named (λ e.
          let (hostname, found) = with_host-rest resolve okay port (cut 0 behind) p ip rest e in
          (
            user,
            behind,
            hostname ++ 0 ∷ [],
            refl,
            cut_lem 0 behind hostname rest found ∙ sym (append_assoc hostname (0 ∷ []) rest),
          ))
      | inr other ↦
          rw other
            (λ e. (user, behind, [], refl, decide-rest okay port (some address) behind p ip rest e))
    ]

parse_fields-rest :
    (resolve : List ℕ → Option (List ℕ)) (input p ip rest : List ℕ)
    → parse_fields resolve input ≡ granted p ip rest
    → (request : List ℕ) × (input ≡ request ++ rest)
parse_fields-rest resolve [] p ip rest e = cc
parse_fields-rest resolve (_ ∷ []) p ip rest e = cc
parse_fields-rest resolve (_ ∷ _ ∷ []) p ip rest e = cc
parse_fields-rest resolve (_ ∷ _ ∷ _ ∷ []) p ip rest e = cc
parse_fields-rest resolve (_ ∷ _ ∷ _ ∷ _ ∷ []) p ip rest e = cc
parse_fields-rest resolve (_ ∷ _ ∷ _ ∷ _ ∷ _ ∷ []) p ip rest e = cc
parse_fields-rest resolve (_ ∷ _ ∷ _ ∷ _ ∷ _ ∷ _ ∷ []) p ip rest e = cc
parse_fields-rest resolve (_ ∷ _ ∷ _ ∷ _ ∷ _ ∷ _ ∷ _ ∷ []) p ip rest e = cc
parse_fields-rest resolve (ver ∷ cmd ∷ p₁ ∷ p₂ ∷ a ∷ b ∷ c ∷ d ∷ body) p ip rest e =
    let fields = ver ∷ cmd ∷ p₁ ∷ p₂ ∷ a ∷ b ∷ c ∷ d ∷ [] in
    let (user, behind, before, found, e') =
      with_user-rest resolve ((ver == 4) && (cmd == 1)) (p₁ ∷ p₂ ∷ []) (a ∷ b ∷ c ∷ d ∷ [])
        (cut 0 body) p ip rest e in
    (
      fields ++ (user ++ 0 ∷ before),
      ap (λ xs. fields ++ xs)
          (cut_lem 0 body user behind found
            ∙ (ap (λ xs. user ++ 0 ∷ xs) e' ∙ sym (append_assoc user (0 ∷ before) rest))),
    )

-- A request that is granted is what is before the rest.
pub parse_request-rest :
    (resolve : List ℕ → Option (List ℕ)) (input p ip rest : List ℕ)
    → parse_request resolve input ≡ granted p ip rest
    → (request : List ℕ) × (input ≡ request ++ rest)
unfolding parse_request
parse_request-rest resolve input p ip rest = elim (Bool-cases (ltb 128 (length input))) [
  | inl long ↦ rw long (λ e. cc)
  | inr fits ↦ elim (Bool-cases (ltb 8 (length input))) [
    | inl whole ↦ rw (fits, whole) (λ e. parse_fields-rest resolve input p ip rest e)
    | inr short ↦ rw (fits, short) (λ e. cc)
  ]
]
