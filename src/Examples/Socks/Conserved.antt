-- ===== src/Examples/Socks/Conserved.antt =====
-- examples/socks4a/socks4a.cpp: the bytes of the user, at a message.
use sevent.Base.{
  ℕ, ◌⊎◌, ◌≡◌, refl, sym, ap, ◌∙◌, Bool-cases, inl, inr, true, false, Option, List, [], ◌∷◌, ◌++◌,
  append_assoc, append-nil,
}
use sevent.Examples.Socks.Requests.{parse_request-rest}
use sevent.Examples.Socks.{
  Request, waits, too_long, refused, granted, parse_request, send_server, Relay, on_request,
  on_message, to_server,
}

-- The bytes are those of a request that is granted.
pub IsGranted : (List ℕ → Option (List ℕ)) → List ℕ → Type 0
IsGranted resolve request =
    (port ip rest : List ℕ) × (parse_request resolve (request ++ rest) ≡ granted port ip rest)

-- What came from the user is the request, what was sent, and what is in the buffer, in this order, and
-- nothing is a request or sent before a request was granted.
pub record Kept (resolve : List ℕ → Option (List ℕ)) (r : Relay) (received sent : List ℕ)
    : Type 0 where
  pub request : List ℕ
  pub bytes : received ≡ request ++ (sent ++ r.input)
  pub first : ((request ≡ []) × (sent ≡ [])) ⊎ IsGranted resolve request
  pub with_tunnel : r.has_tunnel ≡ true → IsGranted resolve request
  pub without : r.has_tunnel ≡ false → r.is_closed ≡ false → (request ≡ []) × (sent ≡ [])

apart : true ≡ false → ⊥
apart e = cc

longer :
    (request sent input received more : List ℕ)
    → received ≡ request ++ (sent ++ input)
    → received ++ more ≡ request ++ (sent ++ (input ++ more))
longer request sent input received more e =
    ap (λ xs. xs ++ more) e
    ∙ (append_assoc request (sent ++ input) more
        ∙ ap (λ xs. request ++ xs) (append_assoc sent input more))

-- More bytes stay in the buffer, behind those that are there.
pub stays :
    (resolve : List ℕ → Option (List ℕ)) (r r' : Relay) (received sent more : List ℕ)
    → Kept resolve r received sent
    → r'.input ≡ r.input ++ more
    → r'.has_tunnel ≡ r.has_tunnel
    → r'.is_closed ≡ r.is_closed
    → Kept resolve r' (received ++ more) (sent ++ [])
stays resolve r r' received sent more k i t c = record {
  request = k.request;
  bytes = rw (i, append-nil sent) (longer k.request sent r.input received more k.bytes);
  first = rw (append-nil sent) k.first;
  with_tunnel = λ h. k.with_tunnel (sym t ∙ h);
  without = λ h o. rw (append-nil sent) (k.without (sym t ∙ h) (sym c ∙ o));
}

-- All that is there and more bytes are sent.
pub forwards :
    (resolve : List ℕ → Option (List ℕ)) (r r' : Relay) (received sent more : List ℕ)
    → Kept resolve r received sent
    → r.has_tunnel ≡ true
    → r'.input ≡ []
    → r'.has_tunnel ≡ true
    → Kept resolve r' (received ++ more) (sent ++ (r.input ++ more))
forwards resolve r r' received sent more k t i t' = record {
  request = k.request;
  bytes =
      rw (i, append-nil (sent ++ (r.input ++ more)))
        (longer k.request sent r.input received more k.bytes);
  first = inr (k.with_tunnel t);
  with_tunnel = λ h. k.with_tunnel t;
  without = λ h. absurd (apart (sym t' ∙ h));
}

grants :
    (resolve : List ℕ → Option (List ℕ)) (r r' : Relay) (received sent more port ip rest : List ℕ)
    → Kept resolve r received sent
    → r.has_tunnel ≡ false
    → r.is_closed ≡ false
    → parse_request resolve (r.input ++ more) ≡ granted port ip rest
    → r'.input ≡ rest
    → r'.has_tunnel ≡ true
    → Kept resolve r' (received ++ more) (sent ++ [])
unfolding IsGranted
grants resolve r r' received sent more port ip rest k t o parsed i t' =
    let (no_request, nothing) = k.without t o in
    let (request, e) = parse_request-rest resolve (r.input ++ more) port ip rest parsed in
    let before : received ≡ r.input = k.bytes ∙ rw (no_request, nothing) refl in
    let told : IsGranted resolve request =
      (port, ip, rest, sym (ap (parse_request resolve) e) ∙ parsed) in
    record {
      request = request;
      bytes = rw (i, nothing, before) e;
      first = inr told;
      with_tunnel = λ h. told;
      without = λ h. absurd (apart (sym t' ∙ h));
    }

pub closes :
    (resolve : List ℕ → Option (List ℕ)) (r r' : Relay) (received sent : List ℕ)
    → Kept resolve r received sent
    → r'.input ≡ r.input
    → r'.has_tunnel ≡ false
    → r'.is_closed ≡ true
    → Kept resolve r' (received ++ []) (sent ++ [])
closes resolve r r' received sent k i t c = record {
  request = k.request;
  bytes = rw (append-nil received, append-nil sent, i) k.bytes;
  first = rw (append-nil sent) k.first;
  with_tunnel = λ h. absurd (apart (sym h ∙ t));
  without = λ h o. absurd (apart (sym c ∙ o));
}

on_request-Kept :
    (resolve : List ℕ → Option (List ℕ)) (r : Relay) (received sent more : List ℕ) (q : Request)
    → Kept resolve r received sent
    → r.has_tunnel ≡ false
    → r.is_closed ≡ false
    → parse_request resolve (r.input ++ more) ≡ q
    → Kept resolve
        (on_request r (r.input ++ more) q).0
        (received ++ more)
        (sent ++ to_server (on_request r (r.input ++ more) q).1)
unfolding on_request
on_request-Kept resolve r received sent more waits k t o e =
    stays resolve r _ received sent more k refl refl refl
on_request-Kept resolve r received sent more too_long k t o e =
    stays resolve r _ received sent more k refl refl refl
on_request-Kept resolve r received sent more refused k t o e =
    stays resolve r _ received sent more k refl refl refl
on_request-Kept resolve r received sent more (granted port ip rest) k t o e =
    grants resolve r _ received sent more port ip rest k t o e refl refl

-- `onMessage` in its three cases.
on_message-cases :
    (resolve : List ℕ → Option (List ℕ)) (r : Relay) (input : List ℕ)
    → ((r.has_tunnel ≡ false)
        × (on_message resolve r input ≡ on_request r input (parse_request resolve input)))
      ⊎ ((r.has_tunnel ≡ true)
          × ((on_message resolve r input ≡ (record r { input = [] }, send_server input ∷ []))
              ⊎ (on_message resolve r input ≡ (record r { input = input }, []))))
unfolding on_message
on_message-cases resolve r input = elim (Bool-cases r.has_tunnel) [
  | inr none_yet ↦ inl (none_yet, rw none_yet refl)
  | inl there ↦ elim (Bool-cases r.has_client) [
    | inl opened ↦ inr (there, inl (rw (there, opened) refl))
    | inr shut ↦ inr (there, inr (rw (there, shut) refl))
  ]
]

pub on_message-Kept :
    (resolve : List ℕ → Option (List ℕ)) (r : Relay) (received sent more : List ℕ)
    → Kept resolve r received sent
    → r.is_closed ≡ false
    → Kept resolve
        (on_message resolve r (r.input ++ more)).0
        (received ++ more)
        (sent ++ to_server (on_message resolve r (r.input ++ more)).1)
on_message-Kept resolve r received sent more k o =
    elim (on_message-cases resolve r (r.input ++ more)) [
      | inl (t, e) ↦ rw e (on_request-Kept resolve r received sent more _ k t o refl)
      | inr (t, both) ↦ elim both [
        | inl e ↦
            rw (e, append-nil (r.input ++ more))
              (forwards resolve r _ received sent more k t refl t)
        | inr e ↦ rw e (stays resolve r _ received sent more k refl refl refl)
      ]
    ]
