-- ===== src/Examples/Idle/Lives.antt =====
-- examples/connection/idleconnection.cpp: when a connection that is not heard of is shut down.
use sevent.Base.{
  ℕ, suc, ◌-◌, ◌⊎◌, ◌≡◌, refl, ap, ◌∙◌, Bool, Bool-cases, inl, inr, true, false, not, ◌&&◌, ◌||◌,
  List, [], ◌∷◌, ◌++◌, ◌==◌, leb, ltb, length, arith, if◌then◌else◌,
}
use sevent.Examples.Hub.{has}
use sevent.Examples.Idle.{
  Wheel, held, only_here, Event, connection, message, ends, timer, insert_back, on_timer, step, run,
}
use sevent.Examples.Idle.Buckets.{life_of, has-append, insert-life, insert-other, on_timer-life}

abbrev pub timers : List Event → ℕ
timers [] = 0
timers (timer ∷ es) = suc (timers es)
timers (_ ∷ es) = timers es

-- No event is of the connection.
abbrev pub is_quiet : List Event → ℕ → Bool
is_quiet [] c = true
is_quiet (connection d ∷ es) c = not (d == c) && is_quiet es c
is_quiet (message d ∷ es) c = not (d == c) && is_quiet es c
is_quiet (ends d ∷ es) c = not (d == c) && is_quiet es c
is_quiet (timer ∷ es) c = is_quiet es c

maybe-other :
    (w : Wheel) (d c : ℕ)
    → (d == c) ≡ false
    → life_of (if held (w.front ++ w.back ∷ []) d then insert_back w d else w) c ≡ life_of w c
maybe-other w d c other = elim (Bool-cases (held (w.front ++ w.back ∷ []) d)) [
  | inl there ↦ rw there (insert-other w d c other)
  | inr gone ↦ rw gone refl
]

used : (l t : ℕ) → ((l == 1) || (ltb 0 (l - 1) && leb (l - 1) t)) ≡ (ltb 0 l && leb l (suc t))
used l t = ground arith

on_timer-ended :
    (ended : List ℕ) (front : List (List ℕ)) (back : List ℕ)
    → (on_timer ended front back).0.ended ≡ ended
unfolding on_timer
on_timer-ended ended [] back = refl
on_timer-ended ended (b ∷ bs) back = refl

maybe-ended : (w : Wheel) (d : ℕ) (b : Bool) → (if b then insert_back w d else w).ended ≡ w.ended
unfolding insert_back
maybe-ended w d true = refl
maybe-ended w d false = refl

ended_lem : {xs ys : List ℕ} (c : ℕ) → xs ≡ ys → has ys c ≡ false → has xs c ≡ false
ended_lem c e h = ap (λ zs. has zs c) e ∙ h

-- In a run without an event of the connection, which lives, it is shut down if it has a life and the
-- timers of the run use it up.
run-life :
    (es : List Event) (w : Wheel) (c : ℕ)
    → has w.ended c ≡ false
    → is_quiet es c ≡ true
    → has (run w es).1 c ≡ (ltb 0 (life_of w c) && leb (life_of w c) (timers es))
unfolding run step
run-life [] w c lives q = ground arith
run-life (connection d ∷ es) w c lives q =
    let other : (d == c) ≡ false = ground (arith, q) in
    let quiet : is_quiet es c ≡ true = ground (arith, q) in
    rw
      (
        run-life es (insert_back w d) c (ended_lem c (maybe-ended w d true) lives) quiet,
        insert-other w d c other,
      )
      refl
run-life (message d ∷ es) w c lives q =
    let other : (d == c) ≡ false = ground (arith, q) in
    let quiet : is_quiet es c ≡ true = ground (arith, q) in
    let there = held (w.front ++ w.back ∷ []) d in
    rw
      (
        run-life es (if there then insert_back w d else w) c
            (ended_lem c (maybe-ended w d there) lives) quiet,
        maybe-other w d c other,
      )
      refl
run-life (ends d ∷ es) w c lives q =
    let other : (d == c) ≡ false = ground (arith, q) in
    let quiet : is_quiet es c ≡ true = ground (arith, q) in
    rw (run-life es (record w { ended = d ∷ w.ended }) c (rw other lives) quiet) refl
run-life (timer ∷ es) w c lives q =
    let (left, shut) = on_timer-life w.ended w.front w.back c lives in
    let t = on_timer w.ended w.front w.back in
    rw
      (
        has-append t.1 (run t.0 es).1 c,
        run-life es t.0 c (ended_lem c (on_timer-ended w.ended w.front w.back) lives) q,
        shut,
        left,
      )
      (used (life_of w c) (timers es))

-- A connection that ended is not shut down.
only_here-ended :
    (ended b : List ℕ) (bs : List (List ℕ)) (c : ℕ)
    → has ended c ≡ true
    → has (only_here ended b bs) c ≡ false
only_here-ended ended [] bs c gone = refl
only_here-ended ended (x ∷ b) bs c gone =
    let rest = only_here-ended ended b bs c gone in
    elim (Bool-cases (x == c)) [
      | inl self ↦
          let e : x ≡ c = ground (arith, self) in
          let out : (held bs x || has ended x) ≡ true = rw e (ground (arith, gone)) in rw out rest
      | inr other ↦ elim (Bool-cases (held bs x || has ended x)) [
        | inl out ↦ rw out rest
        | inr alone ↦ rw (alone, other) rest
      ]
    ]

on_timer_none :
    (ended : List ℕ) (front : List (List ℕ)) (back : List ℕ) (c : ℕ)
    → has ended c ≡ true
    → has (on_timer ended front back).1 c ≡ false
unfolding on_timer
on_timer_none ended [] back c gone = only_here-ended ended back [] c gone
on_timer_none ended (b ∷ bs) back c gone = only_here-ended ended b (bs ++ back ∷ []) c gone

still_ended : {xs ys : List ℕ} (c : ℕ) → xs ≡ ys → has ys c ≡ true → has xs c ≡ true
still_ended c e h = ap (λ zs. has zs c) e ∙ h

run_ended :
    (es : List Event) (w : Wheel) (c : ℕ) → has w.ended c ≡ true → has (run w es).1 c ≡ false
unfolding run step
run_ended [] w c gone = refl
run_ended (connection d ∷ es) w c gone =
    run_ended es (insert_back w d) c (still_ended c (maybe-ended w d true) gone)
run_ended (message d ∷ es) w c gone =
    let there = held (w.front ++ w.back ∷ []) d in
    run_ended es (if there then insert_back w d else w) c
      (still_ended c (maybe-ended w d there) gone)
run_ended (ends d ∷ es) w c gone =
    run_ended es (record w { ended = d ∷ w.ended }) c (ground (arith, gone))
run_ended (timer ∷ es) w c gone =
    let t = on_timer w.ended w.front w.back in
    rw
      (
        has-append t.1 (run t.0 es).1 c,
        on_timer_none w.ended w.front w.back c gone,
        run_ended es t.0 c (still_ended c (on_timer-ended w.ended w.front w.back) gone),
      )
      refl

shut_none : {b : Bool} (d : Bool) → b ≡ true → false ≡ (not b && d)
shut_none d h = ground (arith, h)

shut_all : {b : Bool} (d : Bool) → b ≡ false → d ≡ (not b && d)
shut_all d h = ground (arith, h)

lives_on :
    (w : Wheel) (e : Event) (es : List Event) (c : ℕ)
    → has w.ended c ≡ false
    → (e ≡ connection c) ⊎ ((e ≡ message c) × (held (w.front ++ w.back ∷ []) c ≡ true))
    → is_quiet es c ≡ true
    → has (run w (e ∷ es)).1 c ≡ leb (suc (length w.front)) (timers es)
unfolding run step
lives_on w e es c lives (inl new) q =
    rw
      (
        new,
        run-life es (insert_back w c) c (ended_lem c (maybe-ended w c true) lives) q,
        insert-life w c,
      )
      ground arith
lives_on w e es c lives (inr (again, there)) q =
    rw
      (
        again,
        there,
        run-life es (insert_back w c) c (ended_lem c (maybe-ended w c true) lives) q,
        insert-life w c,
      )
      ground arith

-- A connection that is new, or whose message is handled while a bucket holds it, and that is then not
-- heard of and does not end, is shut down exactly if it had not ended before and at least as many timers
-- fire as there are buckets.
pub step-shut :
    (w : Wheel) (e : Event) (es : List Event) (c : ℕ)
    → (e ≡ connection c) ⊎ ((e ≡ message c) × (held (w.front ++ w.back ∷ []) c ≡ true))
    → is_quiet es c ≡ true
    → has (run w (e ∷ es)).1 c ≡ (not (has w.ended c) && leb (suc (length w.front)) (timers es))
step-shut w e es c heard q = elim (Bool-cases (has w.ended c)) [
  | inl gone ↦ run_ended (e ∷ es) w c gone ∙ shut_none (leb (suc (length w.front)) (timers es)) gone
  | inr lives ↦
      lives_on w e es c lives heard q ∙ shut_all (leb (suc (length w.front)) (timers es)) lives
]
