-- ===== src/Examples/Hub/Subscribed.antt =====
-- examples/hub/hub.cpp: the sets of the topics and the sets of the connections.
use sevent.Base.{
  ℕ, ◌≡◌, refl, sym, ap, ◌∙◌, Bool-cases, inl, inr, true, false, not, ◌&&◌, ◌||◌, List, [], ◌∷◌,
  ◌==◌, arith, if◌then◌else◌,
}
use sevent.Examples.Hub.{
  Topic, Hub, create_hub, has, add, remove, has_name, add_name, remove_name, get_topic, put_topic,
  same_text, do_subscribe, do_unsubscribe, do_publish, put_subscription,
}

same_text_refl : (xs : List ℕ) → same_text xs xs ≡ true
same_text_refl [] = refl
same_text_refl (x ∷ xs) = ground (arith, same_text_refl xs)

same_text-eq : (xs ys : List ℕ) → same_text xs ys ≡ true → xs ≡ ys
same_text-eq [] [] h = refl
same_text-eq [] (y ∷ ys) h = cc
same_text-eq (x ∷ xs) [] h = cc
same_text-eq (x ∷ xs) (y ∷ ys) h =
    let rest = same_text-eq xs ys (ground (arith, h)) in
    let first : x ≡ y = ground (arith, h) in rw (first, rest) refl

same_text-sym : (xs ys : List ℕ) → same_text xs ys ≡ same_text ys xs
same_text-sym [] [] = refl
same_text-sym [] (y ∷ ys) = refl
same_text-sym (x ∷ xs) [] = refl
same_text-sym (x ∷ xs) (y ∷ ys) = ground (arith, same_text-sym xs ys)

pub has-add : (xs : List ℕ) (c d : ℕ) → has (add xs c) d ≡ (c == d || has xs d)
has-add xs c d = elim (Bool-cases (has xs c)) [
  | inl there ↦ elim (Bool-cases (c == d)) [
    | inl same ↦ let e : c ≡ d = ground (arith, same) in rw (there, same) (rw (← e) there)
    | inr other ↦ rw (there, other) refl
  ]
  | inr absent ↦ rw absent refl
]

has-remove : (xs : List ℕ) (c d : ℕ) → has (remove xs c) d ≡ (not (c == d) && has xs d)
has-remove [] c d = ground arith
has-remove (x ∷ xs) c d = ground (arith, has-remove xs c d)

apart_lem : (x n m : List ℕ) → same_text x n ≡ false → same_text x m ≡ true → same_text n m ≡ false
apart_lem x n m other here = rw (← same_text-eq x m here) (same_text-sym n x ∙ other)

has_name-same :
    (xs : List (List ℕ)) (n m : List ℕ) → same_text n m ≡ true → has_name xs n ≡ has_name xs m
has_name-same xs n m h = ap (has_name xs) (same_text-eq n m h)

has_name-add_name :
    (xs : List (List ℕ)) (n m : List ℕ)
    → has_name (add_name xs n) m ≡ (same_text n m || has_name xs m)
has_name-add_name xs n m = elim (Bool-cases (has_name xs n)) [
  | inl there ↦ elim (Bool-cases (same_text n m)) [
    | inl same ↦ rw (there, same) (sym (has_name-same xs n m same) ∙ there)
    | inr other ↦ rw (there, other) refl
  ]
  | inr absent ↦ rw absent refl
]

pub has_name-remove_name :
    (xs : List (List ℕ)) (n m : List ℕ)
    → has_name (remove_name xs n) m ≡ (not (same_text n m) && has_name xs m)
has_name-remove_name [] n m = ground arith
has_name-remove_name (x ∷ xs) n m = elim (Bool-cases (same_text x n)) [
  | inl same ↦
      let e = has_name-remove_name xs n m in
      let swap : same_text x m ≡ same_text n m = ap (λ z. same_text z m) (same_text-eq x n same) in
      rw (same, swap, e) ground arith
  | inr other ↦ elim (Bool-cases (same_text x m)) [
    | inl here ↦
        let apart : same_text n m ≡ false = apart_lem x n m other here in
        rw (other, here, apart) refl
    | inr there ↦
        rw (other, there) (has_name-remove_name xs n m ∙ ap (λ z. not (same_text n m) && z) refl)
  ]
]

get_topic-put_topic :
    (topics : List (List ℕ × Topic)) (n m : List ℕ) (t : Topic)
    → get_topic (put_topic topics n t) m ≡ (if same_text n m then t else get_topic topics m)
get_topic-put_topic [] n m t = refl
get_topic-put_topic ((name, t') ∷ topics) n m t = elim (Bool-cases (same_text name n)) [
  | inl same ↦
      let swap : same_text name m ≡ same_text n m =
        ap (λ z. same_text z m) (same_text-eq name n same) in
      rw (same, swap) ground arith
  | inr other ↦ elim (Bool-cases (same_text name m)) [
    | inl here ↦ rw (other, here, apart_lem name n m other here) refl
    | inr there ↦ rw (other, there) (get_topic-put_topic topics n m t)
  ]
]

-- A connection is among the subscribers of a topic if the topic is in its own set.
unfoldable pub IsConsistent : Hub → Type 0
IsConsistent h =
    (n : List ℕ) (c : ℕ) → has (get_topic h.topics n).subs c ≡ has_name (h.subscription c) n

pub create_hub-IsConsistent : IsConsistent create_hub
unfolding IsConsistent
create_hub-IsConsistent n c = refl

put_topic-has :
    (topics : List (List ℕ × Topic)) (n m : List ℕ) (t : Topic) (d : ℕ)
    → has (get_topic (put_topic topics n t) m).subs d
      ≡ (if same_text n m then has t.subs d else has (get_topic topics m).subs d)
put_topic-has topics n m t d = elim (Bool-cases (same_text n m)) [
  | inl same ↦ rw (get_topic-put_topic topics n m t, same) refl
  | inr other ↦ rw (get_topic-put_topic topics n m t, other) refl
]

put_subscription-has_name :
    (subscription : ℕ → List (List ℕ)) (c d : ℕ) (names : List (List ℕ)) (m : List ℕ)
    → has_name (put_subscription subscription c names d) m
      ≡ (if d == c then has_name names m else has_name (subscription d) m)
put_subscription-has_name subscription c d names m = elim (Bool-cases (d == c)) [
  | inl same ↦ rw same refl
  | inr other ↦ rw other refl
]

-- A change of one topic and of one connection that agree on this topic and this connection alone.
changed :
    (h : Hub) (c : ℕ) (topic : List ℕ) (t : Topic) (names : List (List ℕ))
    → IsConsistent h
    → ((d : ℕ) → (d == c) ≡ false → has t.subs d ≡ has (get_topic h.topics topic).subs d)
    → ((m : List ℕ) → same_text topic m ≡ false → has_name names m ≡ has_name (h.subscription c) m)
    → has t.subs c ≡ has_name names topic
    → IsConsistent record {
      topics = put_topic h.topics topic t;
      subscription = put_subscription h.subscription c names;
    }
unfolding IsConsistent
changed h c topic t names good outside elsewhere inside m d =
    rw (put_topic-has h.topics topic m t d, put_subscription-has_name h.subscription c d names m)
      elim (Bool-cases (same_text topic m)) [
        | inl same ↦
            let e = same_text-eq topic m same in
            elim (Bool-cases (d == c)) [
              | inl self ↦
                  let f : d ≡ c = ground (arith, self) in rw (same, self) (rw (← e, f) inside)
              | inr other ↦ rw (same, other) (rw (← e) (outside d other ∙ good topic d))
            ]
        | inr apart ↦ elim (Bool-cases (d == c)) [
          | inl self ↦
              let f : d ≡ c = ground (arith, self) in
              rw (apart, self) (rw f (good m c ∙ sym (elsewhere m apart)))
          | inr other ↦ rw (apart, other) (good m d)
        ]
      ]

pub do_subscribe-IsConsistent :
    (h : Hub) (c : ℕ) (topic : List ℕ) → IsConsistent h → IsConsistent (do_subscribe h c topic).0
unfolding do_subscribe
do_subscribe-IsConsistent h c topic good =
    let old = (get_topic h.topics topic).subs in
    changed h c topic (record (get_topic h.topics topic) { subs = add old c })
      (add_name (h.subscription c) topic) good (λ d other. ground (arith, has-add old c d, other))
      (λ m apart. ground (arith, has_name-add_name (h.subscription c) topic m, apart))
      (ground (
        arith,
        has-add old c c,
        has_name-add_name (h.subscription c) topic topic,
        same_text_refl topic,
      ))

pub do_unsubscribe-IsConsistent :
    (h : Hub) (c : ℕ) (topic : List ℕ) → IsConsistent h → IsConsistent (do_unsubscribe h c topic)
unfolding do_unsubscribe
do_unsubscribe-IsConsistent h c topic good =
    let old = (get_topic h.topics topic).subs in
    changed h c topic (record (get_topic h.topics topic) { subs = remove old c })
      (remove_name (h.subscription c) topic) good
      (λ d other. ground (arith, has-remove old c d, other))
      (λ m apart. ground (arith, has_name-remove_name (h.subscription c) topic m, apart))
      (ground (
        arith,
        has-remove old c c,
        has_name-remove_name (h.subscription c) topic topic,
        same_text_refl topic,
      ))

pub do_publish-IsConsistent :
    (h : Hub) (topic content : List ℕ)
    → IsConsistent h
    → IsConsistent (do_publish h topic content).0
unfolding do_publish IsConsistent
do_publish-IsConsistent h topic content good m d =
    let t = record (get_topic h.topics topic) { content = content; is_published = true } in
    rw (put_topic-has h.topics topic m t d) elim (Bool-cases (same_text topic m)) [
      | inl same ↦ rw same (rw (← same_text-eq topic m same) (good topic d))
      | inr apart ↦ rw apart (good m d)
    ]
