-- ===== src/Examples/Hub/Total.antt =====
-- examples/hub/hub.cpp: the loop of `onMessage` ends.
use sevent.Base.{
  ℕ, zero, suc, ◌<◌, ◌≤◌, ◌≡◌, refl, ◌∙◌, Bool, Bool-cases, inl, inr, true, false, ◌&&◌, List, [],
  ◌∷◌, ◌++◌, ◌==◌, arith, Option, none, some, length,
}
use sevent.Http.{cut, add_before}
use sevent.Examples.Hub.{
  Hub, Effect, cut_crlf, ParseResult, parse_error, parse_continue, parse_success, parse_message,
  with_content, with_line, with_crlf, with_result, after_handle, message_loop, on_message, handle,
  pub_cmd, same_text,
}

here_lem :
    (x y : ℕ) (xs line rest : List ℕ)
    → ((x == 13) && (y == 10)) ≡ true
    → cut_crlf (x ∷ y ∷ xs) ≡ some (line, rest)
    → length rest < length (x ∷ y ∷ xs)
here_lem x y xs line rest here = rw here (λ e. let same : xs ≡ rest = cc in rw (← same) omega arith)

add_before-found :
    (x : ℕ) (found : Option (List ℕ × List ℕ)) (line rest : List ℕ)
    → add_before x found ≡ some (line, rest)
    → (before : List ℕ) × (found ≡ some (before, rest))
add_before-found x none line rest e = cc
add_before-found x (some (before, behind)) line rest e = (before, cc)

later_lem :
    (x y : ℕ) (xs line rest : List ℕ)
    → ((x == 13) && (y == 10)) ≡ false
    → cut_crlf (x ∷ y ∷ xs) ≡ some (line, rest)
    → (before : List ℕ) × (cut_crlf (y ∷ xs) ≡ some (before, rest))
later_lem x y xs line rest later =
    rw later (λ e. add_before-found x (cut_crlf (y ∷ xs)) line rest e)

pub_lem :
    (behind cmd topic : List ℕ)
    → same_text cmd pub_cmd ≡ true
    → with_content cmd topic (cut_crlf behind) ≡ with_line behind (some (cmd, topic))
pub_lem behind cmd topic publishes = rw publishes refl

other_lem :
    (behind cmd topic c t content rest : List ℕ)
    → same_text cmd pub_cmd ≡ false
    → with_line behind (some (cmd, topic)) ≡ parse_success c t content rest
    → behind ≡ rest
other_lem behind cmd topic c t content rest other = rw other (λ e. cc)

-- What a search leaves behind is shorter.
cut_crlf-shorter :
    (xs line rest : List ℕ) → cut_crlf xs ≡ some (line, rest) → length rest < length xs
cut_crlf-shorter [] line rest e = cc
cut_crlf-shorter (x ∷ []) line rest e = cc
cut_crlf-shorter (x ∷ y ∷ xs) line rest e = elim (Bool-cases ((x == 13) && (y == 10))) [
  | inl here ↦ here_lem x y xs line rest here e
  | inr later ↦
      let (before, found) = later_lem x y xs line rest later e in
      let shorter = cut_crlf-shorter (y ∷ xs) before rest found in omega (arith, shorter)
]

with_content-rest :
    (cmd topic : List ℕ) (found : Option (List ℕ × List ℕ)) (c t content rest : List ℕ)
    → with_content cmd topic found ≡ parse_success c t content rest
    → found ≡ some (content, rest)
with_content-rest cmd topic none c t content rest e = cc
with_content-rest cmd topic (some (x, y)) c t content rest e = cc

with_line-rest :
    (behind : List ℕ) (split : Option (List ℕ × List ℕ)) (c t content rest : List ℕ)
    → with_line behind split ≡ parse_success c t content rest
    → length rest ≤ length behind
with_line-rest behind none c t content rest e = cc
with_line-rest behind (some (cmd, topic)) c t content rest e =
    elim (Bool-cases (same_text cmd pub_cmd)) [
      | inl publishes ↦
          let e' : with_content cmd topic (cut_crlf behind) ≡ parse_success c t content rest =
            pub_lem behind cmd topic publishes ∙ e in
          let shorter =
            cut_crlf-shorter behind content rest
              (with_content-rest cmd topic (cut_crlf behind) c t content rest e') in
          omega (arith, shorter)
      | inr other ↦
          let e' : behind ≡ rest = other_lem behind cmd topic c t content rest other e in
          rw e' omega arith
    ]

with_crlf-rest :
    (found : Option (List ℕ × List ℕ)) (c t content rest : List ℕ)
    → with_crlf found ≡ parse_success c t content rest
    → (line behind : List ℕ) × (found ≡ some (line, behind)) × (length rest ≤ length behind)
with_crlf-rest none c t content rest e = cc
with_crlf-rest (some (line, behind)) c t content rest e =
    (line, behind, refl, with_line-rest behind (cut 32 line) c t content rest e)

parse_message-shorter :
    (input cmd topic content rest : List ℕ)
    → parse_message input ≡ parse_success cmd topic content rest
    → length rest < length input
unfolding parse_message
parse_message-shorter input cmd topic content rest e =
    let (line, behind, found, fits) = with_crlf-rest (cut_crlf input) cmd topic content rest e in
    let shorter = cut_crlf-shorter input line behind found in omega (arith, shorter, fits)

after_handle_total :
    (next : Hub → List ℕ → Option (Hub × List Effect × List ℕ)) (rest : List ℕ)
    (t : Hub × List Effect × Bool)
    → ((h : Hub) → (q : Hub × List Effect × List ℕ) × (next h rest ≡ some q))
    → (r : Hub × List Effect × List ℕ) × (after_handle next rest t ≡ some r)
after_handle_total next rest (h, es, false) goes = ((h, es, rest), refl)
after_handle_total next rest (h, es, true) goes =
    let (q, e) = goes h in ((q.0, es ++ q.1, q.2), rw e refl)

with_result_total :
    (next : Hub → List ℕ → Option (Hub × List Effect × List ℕ)) (h : Hub) (c : ℕ) (input : List ℕ)
    (parsed : ParseResult)
    → ((cmd topic content rest : List ℕ)
        → parsed ≡ parse_success cmd topic content rest
        → (h : Hub) → (q : Hub × List Effect × List ℕ) × (next h rest ≡ some q))
    → (r : Hub × List Effect × List ℕ) × (with_result next h c input parsed ≡ some r)
unfolding with_result
with_result_total next h c input parse_continue goes = (_, refl)
with_result_total next h c input parse_error goes = (_, refl)
with_result_total next h c input (parse_success cmd topic content rest) goes =
    after_handle_total next rest (handle h c cmd topic content) (goes cmd topic content rest refl)

loop_total :
    (fuel : ℕ) (h : Hub) (c : ℕ) (input : List ℕ)
    → length input < fuel
    → (r : Hub × List Effect × List ℕ) × (message_loop fuel h c input ≡ some r)
unfolding message_loop
loop_total zero h c input f = absurd (omega arith)
loop_total (suc fuel) h c input f =
    with_result_total (λ h' rest. message_loop fuel h' c rest) h c input (parse_message input)
      (λ cmd topic content rest e h'.
        let s = parse_message-shorter input cmd topic content rest e in
        loop_total fuel h' c rest (omega arith))

-- `onMessage` returns, whatever the hub and the input.
pub on_message_total :
    (h : Hub) (c : ℕ) (input : List ℕ)
    → (r : Hub × List Effect × List ℕ) × (on_message h c input ≡ some r)
unfolding on_message
on_message_total h c input = loop_total (suc (length input)) h c input (omega arith)
