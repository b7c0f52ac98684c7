-- ===== src/Http/Query.antt =====
-- sevent/net/http/HttpParser.cpp: `parseQueryParam` on a printed query string, and on any string.
use sevent.Base.{
  ℕ, zero, suc, ◌<◌, ◌≡◌, refl, ap, inl, inr, Bool, Bool-cases, true, false, not, ◌&&◌, Option,
  Option-cases, none, some, List, [], ◌∷◌, ◌++◌, ◌==◌, length, length-append, arith, some-injective,
}
use sevent.Http.{
  assign, cut, equals_sign, ampersand, take_value, turn, go_on, parse_from, parse_query_param,
}

abbrev pub lacks : ℕ → List ℕ → Bool
lacks c [] = true
lacks c (x ∷ xs) = not (x == c) && lacks c xs

pub cut_at :
    (c : ℕ) (before behind : List ℕ)
    → lacks c before ≡ true
    → cut c (before ++ c ∷ behind) ≡ some (before, behind)
cut_at c [] behind h = ground arith
cut_at c (x ∷ xs) behind h = ground (arith, h, cut_at c xs behind)

cut-none : (c : ℕ) (xs : List ℕ) → lacks c xs ≡ true → cut c xs ≡ none
cut-none c [] h = refl
cut-none c (x ∷ xs) h = ground (arith, h, cut-none c xs)

-- A key without `=` and a value without `&`, neither empty.
abbrev pub is_empty : List ℕ → Bool
is_empty [] = true
is_empty (_ ∷ _) = false

abbrev pub is_clean : List ℕ × List ℕ → Bool
is_clean (key, value) =
    (not (is_empty key) && lacks equals_sign key) && (not (is_empty value) && lacks ampersand value)

abbrev pub all_clean : List (List ℕ × List ℕ) → Bool
all_clean [] = true
all_clean (e ∷ entries) = is_clean e && all_clean entries

-- The query string of some entries: `key=value&key=value`.
abbrev pub print : List (List ℕ × List ℕ) → List ℕ
print [] = []
print ((key, value) ∷ []) = key ++ equals_sign ∷ value
print ((key, value) ∷ e ∷ entries) = key ++ equals_sign ∷ (value ++ ampersand ∷ print (e ∷ entries))

abbrev pub assign_all : List (List ℕ × List ℕ) → List (List ℕ × List ℕ) → List (List ℕ × List ℕ)
assign_all params [] = params
assign_all params ((key, value) ∷ entries) = assign_all (assign params key value) entries

parse_from-print :
    (entries : List (List ℕ × List ℕ)) (fuel : ℕ) (params : List (List ℕ × List ℕ))
    → all_clean entries ≡ true
    → length (print entries) < fuel
    → parse_from fuel params (print entries) ≡ some (assign_all params entries)
unfolding parse_from
parse_from-print entries zero params c h = absurd (omega arith)
parse_from-print [] (suc fuel) params c h = refl
parse_from-print ((k ∷ key, v ∷ value) ∷ []) (suc fuel) params c h =
    rw
      (
        cut_at equals_sign (k ∷ key) (v ∷ value) (ground (arith, c)),
        cut-none ampersand (v ∷ value) (ground (arith, c)),
      )
      refl
parse_from-print ((k ∷ key, v ∷ value) ∷ e ∷ entries) (suc fuel) params c h =
    rw
      (
        cut_at equals_sign (k ∷ key) ((v ∷ value) ++ ampersand ∷ print (e ∷ entries))
            (ground (arith, c)),
        cut_at ampersand (v ∷ value) (print (e ∷ entries)) (ground (arith, c)),
      )
      (parse_from-print (e ∷ entries) fuel (assign params (k ∷ key) (v ∷ value)) (ground (arith, c))
        (omega (
          arith,
          h,
          length-append (k ∷ key) (equals_sign ∷ ((v ∷ value) ++ ampersand ∷ print (e ∷ entries))),
          length-append (v ∷ value) (ampersand ∷ print (e ∷ entries)),
        )))
parse_from-print (([], value) ∷ entries) (suc fuel) params c h = absurd (ground (arith, c))
parse_from-print ((k ∷ key, []) ∷ entries) (suc fuel) params c h = absurd (ground (arith, c))

-- The parameters of a query string are its entries, each assigned in turn, if no key is empty or has a
-- `=`, and no value is empty or has a `&`.
pub parse_query_param-print :
    (entries params : List (List ℕ × List ℕ))
    → all_clean entries ≡ true
    → parse_query_param params (print entries) ≡ some (assign_all params entries)
unfolding parse_query_param
parse_query_param-print entries params c =
    parse_from-print entries (suc (length (print entries))) params c (omega arith)

cut_shorter :
    (c : ℕ) (xs : List ℕ) {before behind : List ℕ}
    → cut c xs ≡ some (before, behind)
    → length behind < length xs
cut_shorter c [] h = absurd (ground (arith, h))
cut_shorter c (x ∷ xs) {before} {behind} h = elim (Bool-cases (x == c)) [
  | inl here ↦
      let same : some ([], xs) ≡ some (before, behind) = ground (arith, h, here) in
      let e : xs ≡ behind = ap (λ (t : List ℕ × List ℕ). t.1) (some-injective same) in
      omega (arith, ap length e)
  | inr later ↦ elim (Option-cases (cut c xs)) [
    | inl missing ↦ absurd (ground (arith, h, later, missing))
    | inr ((b, r), found) ↦
        let same : some (x ∷ b, r) ≡ some (before, behind) = ground (arith, h, later, found) in
        let e : r ≡ behind = ap (λ (t : List ℕ × List ℕ). t.1) (some-injective same) in
        omega (arith, ap length e, cut_shorter c xs found)
  ]
]

-- The next turn starts at a shorter string.
turn_shorter :
    (params : List (List ℕ × List ℕ)) (rest next : List ℕ)
    → (turn params (cut equals_sign rest)).1 ≡ some next
    → length next < length rest
turn_shorter params rest next h = elim (Option-cases (cut equals_sign rest)) [
  | inl missing ↦ absurd (ground (arith, h, missing))
  | inr ((key, behind), found) ↦
      let e : (take_value params key behind).1 ≡ some next = ground (arith, h, found) in
      let shorter : length behind < length rest = cut_shorter equals_sign rest found in
      value_shorter params key behind rest next shorter e
]
  where
    value_shorter :
        (params : List (List ℕ × List ℕ)) (key behind rest next : List ℕ)
        → length behind < length rest
        → (take_value params key behind).1 ≡ some next
        → length next < length rest
    value_shorter params key [] rest next shorter e = absurd (ground (arith, e))
    value_shorter params key (x ∷ xs) rest next shorter e =
        elim (Option-cases (cut ampersand (x ∷ xs))) [
          | inl missing ↦ absurd (ground (arith, e, missing))
          | inr ((value, r), found) ↦
              let same : some r ≡ some next = ground (arith, e, found) in
              omega (
                arith,
                shorter,
                ap length (some-injective same),
                cut_shorter ampersand (x ∷ xs) found,
              )
        ]

parse_from_total :
    (fuel : ℕ) (params : List (List ℕ × List ℕ)) (rest : List ℕ)
    → length rest < fuel
    → (params' : List (List ℕ × List ℕ)) × (parse_from fuel params rest ≡ some params')
unfolding parse_from
parse_from_total zero params rest h = absurd (omega arith)
parse_from_total (suc fuel) params rest h =
    elim (Option-cases (turn params (cut equals_sign rest)).1) [
      | inl last ↦ (_, finish (turn params (cut equals_sign rest)) last)
      | inr (next, more) ↦
          let (params', done) =
            parse_from_total fuel (turn params (cut equals_sign rest)).0 next
              (omega (arith, h, turn_shorter params rest next more)) in
          (params', again (turn params (cut equals_sign rest)) next more done)
    ]
  where
    finish :
        (t : List (List ℕ × List ℕ) × Option (List ℕ))
        → t.1 ≡ none
        → go_on (parse_from fuel) t ≡ some t.0
    finish (ps, none) e = refl
    finish (ps, some n) e = absurd (ground (arith, e))

    again :
        (t : List (List ℕ × List ℕ) × Option (List ℕ)) (next : List ℕ)
        {params' : List (List ℕ × List ℕ)}
        → t.1 ≡ some next
        → parse_from fuel t.0 next ≡ some params'
        → go_on (parse_from fuel) t ≡ some params'
    again (ps, none) next e d = absurd (ground (arith, e))
    again (ps, some n) next {params'} e d = let same : n ≡ next = some-injective e in rw same d

-- `parseQueryParam` ends on every string.
pub parse_query_param_total :
    (params : List (List ℕ × List ℕ)) (str : List ℕ)
    → (params' : List (List ℕ × List ℕ)) × (parse_query_param params str ≡ some params')
unfolding parse_query_param
parse_query_param_total params str = parse_from_total (suc (length str)) params str (omega arith)
