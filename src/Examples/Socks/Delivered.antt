-- ===== src/Examples/Socks/Delivered.antt =====
-- examples/socks4a/socks4a.cpp: the bytes of the user, in a run.
use sevent.Base.{
  ℕ, ◌⊎◌, ◌≡◌, refl, sym, ap, Bool, Bool-cases, inl, inr, true, false, Option, List, [], ◌∷◌, ◌++◌,
  subst, length, ltb, arith, if◌then◌else◌, append-nil,
}
use sevent.Examples.Socks.{
  Effect, send_server, send_user, shutdown_server, shutdown_user, Relay, on_connection, Event,
  user_sends, server_sends, connects, server_closes, user_closes, user_written, user_high,
  server_written, server_high, handle_event, step, to_server, bytes_of, Run, starts, goes,
}
use sevent.Examples.Socks.Conserved.{IsGranted, Kept, stays, forwards, closes, on_message-Kept}

-- A step on a state that was `r`.
abbrev Steps : (List ℕ → Option (List ℕ)) → List ℕ → List ℕ → List ℕ → Relay × List Effect → Type 0
Steps resolve received more sent t = Kept resolve t.0 (received ++ more) (sent ++ to_server t.1)

no_more : (xs : List ℕ) → xs ≡ xs ++ []
no_more xs = sym (append-nil xs)

idle :
    (resolve : List ℕ → Option (List ℕ)) (r : Relay) (received sent : List ℕ)
    → Kept resolve r received sent
    → Kept resolve r (received ++ []) (sent ++ [])
idle resolve r received sent k = stays resolve r r received sent [] k (no_more r.input) refl refl

to_server-maybe :
    (xs : List ℕ) → to_server (if ltb 0 (length xs) then send_server xs ∷ [] else []) ≡ xs
to_server-maybe [] = refl
to_server-maybe (x ∷ xs) =
    let some_byte : ltb 0 (length (x ∷ xs)) ≡ true = ground arith in
    rw some_byte (append-nil (x ∷ xs))

on_connection-Kept :
    (resolve : List ℕ → Option (List ℕ)) (r : Relay) (received sent : List ℕ)
    → Kept resolve r received sent
    → r.has_tunnel ≡ true
    → Steps resolve received [] sent (on_connection r)
unfolding on_connection
on_connection-Kept resolve r received sent k t = rw (to_server-maybe r.input) (
    subst (λ xs. Kept resolve (on_connection r).0 (received ++ []) (sent ++ xs))
      (append-nil r.input) (forwards resolve r (on_connection r).0 received sent [] k t refl t))

-- The events of the server, in the cases of their guards.
connects-cases :
    (resolve : List ℕ → Option (List ℕ)) (r : Relay)
    → (handle_event resolve r connects ≡ (r, []))
      ⊎ ((r.has_tunnel ≡ true) × (handle_event resolve r connects ≡ on_connection r))
unfolding handle_event
connects-cases resolve r = elim (Bool-cases r.has_tunnel) [
  | inr absent ↦ inl (rw absent refl)
  | inl there ↦ elim (Bool-cases r.has_client) [
    | inl twice ↦ inl (rw (there, twice) refl)
    | inr once ↦ inr (there, rw (there, once) refl)
  ]
]

server_closes-cases :
    (resolve : List ℕ → Option (List ℕ)) (r : Relay)
    → (handle_event resolve r server_closes ≡ (r, []))
      ⊎ (handle_event resolve r server_closes
          ≡ (record r { has_client = false }, shutdown_user ∷ []))
unfolding handle_event
server_closes-cases resolve r = elim (Bool-cases r.has_client) [
  | inl there ↦ inr (rw there refl)
  | inr absent ↦ inl (rw absent refl)
]

to_server-user : (b : Bool) (xs : List ℕ) → to_server (if b then send_user xs ∷ [] else []) ≡ []
to_server-user true xs = refl
to_server-user false xs = refl

to_server-shutdown : (b : Bool) → to_server (if b then shutdown_server ∷ [] else []) ≡ []
to_server-shutdown true = refl
to_server-shutdown false = refl

handle_event-Kept :
    (resolve : List ℕ → Option (List ℕ)) (r : Relay) (received sent : List ℕ) (e : Event)
    → Kept resolve r received sent
    → r.is_closed ≡ false
    → Steps resolve received (bytes_of e) sent (handle_event resolve r e)
unfolding handle_event
handle_event-Kept resolve r received sent (user_sends more) k o =
    on_message-Kept resolve r received sent more k o
handle_event-Kept resolve r received sent connects k o = elim (connects-cases resolve r) [
  | inl e ↦ rw e (idle resolve r received sent k)
  | inr (t, e) ↦ rw e (on_connection-Kept resolve r received sent k t)
]
handle_event-Kept resolve r received sent (server_sends bytes) k o =
    rw (to_server-user r.has_client bytes) (idle resolve r received sent k)
handle_event-Kept resolve r received sent server_closes k o = elim (server_closes-cases resolve r) [
  | inl e ↦ rw e (idle resolve r received sent k)
  | inr e ↦ rw e (stays resolve r _ received sent [] k (no_more r.input) refl refl)
]
handle_event-Kept resolve r received sent user_closes k o =
    rw (to_server-shutdown r.has_tunnel) (closes resolve r _ received sent k refl refl refl)
handle_event-Kept resolve r received sent user_written k o =
    stays resolve r _ received sent [] k (no_more r.input) refl refl
handle_event-Kept resolve r received sent user_high k o =
    stays resolve r _ received sent [] k (no_more r.input) refl refl
handle_event-Kept resolve r received sent server_written k o =
    stays resolve r _ received sent [] k (no_more r.input) refl refl
handle_event-Kept resolve r received sent server_high k o =
    stays resolve r _ received sent [] k (no_more r.input) refl refl

step-cases :
    (resolve : List ℕ → Option (List ℕ)) (r : Relay) (e : Event)
    → ((r.is_closed ≡ true) × (step resolve r e ≡ (r, [])))
      ⊎ ((r.is_closed ≡ false) × (step resolve r e ≡ handle_event resolve r e))
unfolding step
step-cases resolve r e = elim (Bool-cases r.is_closed) [
  | inl shut ↦ inl (shut, rw shut refl)
  | inr live ↦ inr (live, rw live refl)
]

step-Kept :
    (resolve : List ℕ → Option (List ℕ)) (r : Relay) (received sent : List ℕ) (e : Event)
    → Kept resolve r received sent
    → Steps resolve received (if r.is_closed then [] else bytes_of e) sent (step resolve r e)
step-Kept resolve r received sent e k = elim (step-cases resolve r e) [
  | inl (shut, s) ↦
      let nothing : (if r.is_closed then [] else bytes_of e) ≡ [] =
        ap (λ b. if b then [] else bytes_of e) shut in
      rw (s, nothing) (idle resolve r received sent k)
  | inr (live, s) ↦
      let all : (if r.is_closed then [] else bytes_of e) ≡ bytes_of e =
        ap (λ b. if b then [] else bytes_of e) live in
      rw (s, all) (handle_event-Kept resolve r received sent e k live)
]

kept :
    (resolve : List ℕ → Option (List ℕ)) {r : Relay} {received sent : List ℕ}
    → Run resolve r received sent
    → Kept resolve r received sent
kept resolve starts = record {
  request = [];
  bytes = refl;
  first = inl (refl, refl);
  with_tunnel = λ h. cc;
  without = λ h o. (refl, refl);
}
kept resolve (goes {r = r} {received = received} {sent = sent} e run) =
    step-Kept resolve r received sent e (kept resolve run)

-- In every run of a relay, what the user sent until the close is a request, then the bytes that were sent
-- to the server, then those in the buffer, each in its order and none lost or repeated; the request is
-- one that is granted, or there is none yet, and then nothing was sent to a server.
pub Run-Kept :
    (resolve : List ℕ → Option (List ℕ)) (r : Relay) (received sent : List ℕ)
    → Run resolve r received sent
    → (request : List ℕ) × (received ≡ request ++ (sent ++ r.input))
      × (((request ≡ []) × (sent ≡ [])) ⊎ IsGranted resolve request)
Run-Kept resolve r received sent run = let k = kept resolve run in (k.request, k.bytes, k.first)
