-- ===== src/Examples/Hub/Closing.antt =====
-- examples/hub/hub.cpp: what `onClose` leaves of a connection, in each state that the callbacks reach.
use sevent.Base.{
  ℕ, zero, suc, some-injective, bind_option-eq-some, length, ◌≡◌, refl, sym, ap, ◌∙◌, Bool,
  Bool-cases, inl, inr, true, false, not, ◌&&◌, List, [], ◌∷◌, ◌==◌, arith, Option, some,
}
use sevent.Examples.Hub.{
  Hub, Effect, ParseResult, parse_error, parse_continue, parse_success, parse_message, has,
  has_name, get_topic, same_text, do_unsubscribe, unsubscribe_all, on_close, handle, message_loop,
  on_message, with_result, after_handle, Reachable, created, timer, received, closed, time_publish,
  utc_time, remove_name, pub_cmd, sub_cmd, unsub_cmd,
}
use sevent.Examples.Hub.Subscribed.{
  IsConsistent, create_hub-IsConsistent, do_subscribe-IsConsistent, do_unsubscribe-IsConsistent,
  do_publish-IsConsistent, has_name-remove_name,
}

and_not : (b : Bool) → (not b && b) ≡ false
and_not true = refl
and_not false = refl

handle-IsConsistent :
    (h : Hub) (c : ℕ) (cmd topic content : List ℕ)
    → IsConsistent h
    → IsConsistent (handle h c cmd topic content).0
unfolding handle
handle-IsConsistent h c cmd topic content good = elim (Bool-cases (same_text cmd pub_cmd)) [
  | inl publishes ↦ rw publishes (do_publish-IsConsistent h topic content good)
  | inr q ↦ elim (Bool-cases (same_text cmd sub_cmd)) [
    | inl subscribes ↦ rw (q, subscribes) (do_subscribe-IsConsistent h c topic good)
    | inr r ↦ elim (Bool-cases (same_text cmd unsub_cmd)) [
      | inl unsubscribes ↦ rw (q, r, unsubscribes) (do_unsubscribe-IsConsistent h c topic good)
      | inr s ↦ rw (q, r, s) good
    ]
  ]
]

unsubscribe_all-IsConsistent :
    (topics : List (List ℕ)) (h : Hub) (c : ℕ)
    → IsConsistent h
    → IsConsistent (unsubscribe_all h c topics)
unfolding unsubscribe_all
unsubscribe_all-IsConsistent [] h c good = good
unsubscribe_all-IsConsistent (t ∷ topics) h c good =
    unsubscribe_all-IsConsistent topics (do_unsubscribe h c t) c
      (do_unsubscribe-IsConsistent h c t good)

do_unsubscribe_self :
    (h : Hub) (c : ℕ) (topic : List ℕ)
    → (do_unsubscribe h c topic).subscription c ≡ remove_name (h.subscription c) topic
unfolding do_unsubscribe
do_unsubscribe_self h c topic = ground arith

do_unsubscribe_other :
    (h : Hub) (c d : ℕ) (topic : List ℕ)
    → (d == c) ≡ false
    → (do_unsubscribe h c topic).subscription d ≡ h.subscription d
unfolding do_unsubscribe
do_unsubscribe_other h c d topic other = ground (arith, other)

-- The set of the connection after the loop over `topics`.
unsubscribe_all_self :
    (topics : List (List ℕ)) (h : Hub) (c : ℕ) (m : List ℕ)
    → has_name ((unsubscribe_all h c topics).subscription c) m
      ≡ (not (has_name topics m) && has_name (h.subscription c) m)
unfolding unsubscribe_all
unsubscribe_all_self [] h c m = refl
unsubscribe_all_self (t ∷ topics) h c m =
    let later = unsubscribe_all_self topics (do_unsubscribe h c t) c m in
    let now = ap (λ names. has_name names m) (do_unsubscribe_self h c t) in
    let gone = has_name-remove_name (h.subscription c) t m in ground (arith, later, now, gone)

unsubscribe_all_other :
    (topics : List (List ℕ)) (h : Hub) (c d : ℕ)
    → (d == c) ≡ false
    → (unsubscribe_all h c topics).subscription d ≡ h.subscription d
unfolding unsubscribe_all
unsubscribe_all_other [] h c d other = refl
unsubscribe_all_other (t ∷ topics) h c d other =
    unsubscribe_all_other topics (do_unsubscribe h c t) c d other
    ∙ do_unsubscribe_other h c d t other

after_handle-IsConsistent :
    (next : Hub → List ℕ → Option (Hub × List Effect × List ℕ)) (input : List ℕ)
    (t : Hub × List Effect × Bool) (r : Hub × List Effect × List ℕ)
    → ((h : Hub) (xs : List ℕ) (q : Hub × List Effect × List ℕ)
        → IsConsistent h
        → next h xs ≡ some q
        → IsConsistent q.0)
    → IsConsistent t.0
    → after_handle next input t ≡ some r
    → IsConsistent r.0
after_handle-IsConsistent next input (h, es, false) r keeps good run =
    rw (← some-injective run) good
after_handle-IsConsistent next input (h, es, true) r keeps good run =
    let (q, left, e) = bind_option-eq-some (next h input) _ run in
    rw (← some-injective e) (keeps h input q good left)

with_result-IsConsistent :
    (next : Hub → List ℕ → Option (Hub × List Effect × List ℕ)) (h : Hub) (c : ℕ) (input : List ℕ)
    (parsed : ParseResult) (r : Hub × List Effect × List ℕ)
    → ((h : Hub) (xs : List ℕ) (q : Hub × List Effect × List ℕ)
        → IsConsistent h
        → next h xs ≡ some q
        → IsConsistent q.0)
    → IsConsistent h
    → with_result next h c input parsed ≡ some r
    → IsConsistent r.0
unfolding with_result
with_result-IsConsistent next h c input parse_continue r keeps good run =
    rw (← some-injective run) good
with_result-IsConsistent next h c input parse_error r keeps good run =
    rw (← some-injective run) good
with_result-IsConsistent next h c input (parse_success cmd topic content rest) r keeps good run =
    after_handle-IsConsistent next rest (handle h c cmd topic content) r keeps
      (handle-IsConsistent h c cmd topic content good) run

loop-IsConsistent :
    (fuel : ℕ) (h : Hub) (c : ℕ) (input : List ℕ) (r : Hub × List Effect × List ℕ)
    → IsConsistent h
    → message_loop fuel h c input ≡ some r
    → IsConsistent r.0
unfolding message_loop
loop-IsConsistent zero h c input r good run = cc
loop-IsConsistent (suc fuel) h c input r good run =
    with_result-IsConsistent (λ h' rest. message_loop fuel h' c rest) h c input
      (parse_message input) r
      (λ h' rest q good' run'. loop-IsConsistent fuel h' c rest q good' run') good run

Reachable-IsConsistent : (h : Hub) → Reachable h → IsConsistent h
unfolding time_publish on_message on_close
Reachable-IsConsistent h created = create_hub-IsConsistent
Reachable-IsConsistent h (timer {h = before} now r) =
    do_publish-IsConsistent before utc_time now (Reachable-IsConsistent before r)
Reachable-IsConsistent h (received {h = before} c input rest es r run) =
    loop-IsConsistent (suc (length input)) before c input (h, es, rest)
      (Reachable-IsConsistent before r) run
Reachable-IsConsistent h (closed {h = before} c r) =
    unsubscribe_all-IsConsistent (before.subscription c) before c (Reachable-IsConsistent before r)

unsubscribe_all-has_name :
    (h : Hub) (c d : ℕ) (topic : List ℕ)
    → has_name ((unsubscribe_all h c (h.subscription c)).subscription d) topic
      ≡ (not (d == c) && has_name (h.subscription d) topic)
unsubscribe_all-has_name h c d topic = elim (Bool-cases (d == c)) [
  | inl self ↦
      let e : d ≡ c = ground (arith, self) in
      rw self (
        rw e (
          unsubscribe_all_self (h.subscription c) h c topic
          ∙ and_not (has_name (h.subscription c) topic)))
  | inr other ↦ rw (other, unsubscribe_all_other (h.subscription c) h c d other) refl
]

-- In every state that the callbacks reach, after `onClose` of a connection no topic has this connection
-- among its subscribers, and each topic has the other subscribers that it had.
pub close-subscribers :
    (h : Hub)
    → Reachable h
    → (c d : ℕ) (topic : List ℕ)
    → has (get_topic (on_close h c).topics topic).subs d
      ≡ (not (d == c) && has (get_topic h.topics topic).subs d)
unfolding on_close IsConsistent
close-subscribers h r c d topic =
    let good = Reachable-IsConsistent h r in
    let after = unsubscribe_all-IsConsistent (h.subscription c) h c good in
    after topic d
    ∙ unsubscribe_all-has_name h c d topic
    ∙ sym (ap (λ z. not (d == c) && z) (good topic d))
