-- ===== src/Server/Connections.antt =====
-- sevent/net/TcpServer.cpp: which connections the map of a server holds.
use sevent.Base.{
  ℕ, suc, ◌≤◌, ◌≡◌, refl, sym, ap, ◌∙◌, Bool, Bool-cases, inl, inr, false, ◌||◌, ◌==◌, Option, none,
  some, List, [], ◌∷◌, if◌then◌else◌, arith, ok, err, Result,
}
use sevent.Server.{
  TcpServer, EventLoopWorkers, Effect, get_next_loop, on_connection, remove_connection_in_loop,
  erase,
}

-- A search for an id, in the map and in the list of what was ever put there, the newest first.
abbrev pub find : List (ℕ × ℕ) → ℕ → Option ℕ
find [] id = none
find ((key, fd) ∷ entries) id = if key == id then some fd else find entries id

abbrev pub is_gone : List ℕ → ℕ → Bool
is_gone [] id = false
is_gone (x ∷ xs) id = (x == id) || is_gone xs id

-- A server after a run from one without connections, with the ids and descriptors of all connections
-- that it made, and the ids of those that were removed. A connection is removed after it was made.
pub data Run : TcpServer → List (ℕ × ℕ) → List ℕ → Type 0 where
  starts :
      (next_id : ℕ) (workers : EventLoopWorkers)
      → Run (record { next_id = next_id; workers = workers; connections = [] }) [] []
  connects :
      {s s' : TcpServer} {made : List (ℕ × ℕ)} {gone : List ℕ} (fd : ℕ) (es : List Effect)
      → Run s made gone
      → on_connection s fd ≡ ok (s', es)
      → Run s' ((s.next_id, fd) ∷ made) gone
  removes :
      {s : TcpServer} {made : List (ℕ × ℕ)} {gone : List ℕ} (id fd : ℕ)
      → Run s made gone
      → find made id ≡ some fd
      → Run (remove_connection_in_loop s id) made (id ∷ gone)

-- The ids that were not given yet are nowhere.
pub record Holds (s : TcpServer) (made : List (ℕ × ℕ)) (gone : List ℕ) : Type 0 where
  pub unmade : (id : ℕ) → s.next_id ≤ id → find made id ≡ none
  pub ungone : (id : ℕ) → s.next_id ≤ id → is_gone gone id ≡ false
  pub holds : (id : ℕ) → find s.connections id ≡ (if is_gone gone id then none else find made id)

find-erase :
    (entries : List (ℕ × ℕ)) (id other : ℕ)
    → find (erase entries id) other ≡ (if id == other then none else find entries other)
find-erase [] id other = ground arith
find-erase ((key, fd) ∷ entries) id other =
    let rest = find-erase entries id other in ground (arith, rest)

ok_injective : {A : Type 0} {x y : A} → ok x ≡ ok y → x ≡ y
ok_injective e = cc

looped-made :
    (s s' : TcpServer) (fd : ℕ) (es : List Effect) (r : Result (ℕ × EventLoopWorkers))
    → get_next_loop s.workers ≡ r
    → on_connection s fd ≡ ok (s', es)
    → (s'.next_id ≡ suc s.next_id)
      × (s'.connections ≡ (s.next_id, fd) ∷ erase s.connections s.next_id)
unfolding on_connection
looped-made s s' fd es (err fault) q = rw q (λ e. cc)
looped-made s s' fd es (ok (loop, w)) q = rw q (λ e.
    let same = ok_injective e in
    (sym (ap (λ t. t.0.next_id) same), sym (ap (λ t. t.0.connections) same)))

on_connection-made :
    (s s' : TcpServer) (fd : ℕ) (es : List Effect)
    → on_connection s fd ≡ ok (s', es)
    → (s'.next_id ≡ suc s.next_id)
      × (s'.connections ≡ (s.next_id, fd) ∷ erase s.connections s.next_id)
on_connection-made s s' fd es e = looped-made s s' fd es (get_next_loop s.workers) refl e

made_lem : {fd : ℕ} → some fd ≡ none → ⊥
made_lem e = cc

connects_found :
    (s s' : TcpServer) (made : List (ℕ × ℕ)) (gone : List ℕ) (fd id : ℕ)
    → Holds s made gone
    → s'.connections ≡ (s.next_id, fd) ∷ erase s.connections s.next_id
    → find s'.connections id ≡ (if is_gone gone id then none else find ((s.next_id, fd) ∷ made) id)
connects_found s s' made gone fd id h c = rw c elim (Bool-cases (s.next_id == id)) [
  | inl here ↦ rw (here, h.ungone id (ground (arith, here))) refl
  | inr other ↦ rw (other, find-erase s.connections s.next_id id, other) (h.holds id)
]

connects-Holds :
    (s s' : TcpServer) (made : List (ℕ × ℕ)) (gone : List ℕ) (fd : ℕ)
    → Holds s made gone
    → s'.next_id ≡ suc s.next_id
    → s'.connections ≡ (s.next_id, fd) ∷ erase s.connections s.next_id
    → Holds s' ((s.next_id, fd) ∷ made) gone
connects-Holds s s' made gone fd h n c = record {
  unmade = λ id later. ground (arith, h.unmade id (omega (arith, later, n)), later, n);
  ungone = λ id later. h.ungone id (omega (arith, later, n));
  holds = λ id. connects_found s s' made gone fd id h c;
}

later_gone :
    (s : TcpServer) (made : List (ℕ × ℕ)) (gone : List ℕ) (id other fd : ℕ)
    → Holds s made gone
    → find made id ≡ some fd
    → s.next_id ≤ other
    → is_gone (id ∷ gone) other ≡ false
later_gone s made gone id other fd h f later = elim (Bool-cases (id == other)) [
  | inl same ↦
      let e : id ≡ other = ground (arith, same) in
      absurd (made_lem (sym f ∙ (ap (find made) e ∙ h.unmade other later)))
  | inr apart ↦ rw apart (h.ungone other later)
]

removes-Holds :
    (s : TcpServer) (made : List (ℕ × ℕ)) (gone : List ℕ) (id fd : ℕ)
    → Holds s made gone
    → find made id ≡ some fd
    → Holds (remove_connection_in_loop s id) made (id ∷ gone)
unfolding remove_connection_in_loop
removes-Holds s made gone id fd h f = record {
  unmade = h.unmade;
  ungone = λ other later. later_gone s made gone id other fd h f later;
  holds = λ other. ground (arith, find-erase s.connections id other, h.holds other);
}

Run-Holds :
    {s : TcpServer} {made : List (ℕ × ℕ)} {gone : List ℕ} → Run s made gone → Holds s made gone
Run-Holds (starts next_id workers) = record {
  unmade = λ id _. refl;
  ungone = λ id _. refl;
  holds = λ id. refl;
}
Run-Holds (connects {s = s} {s' = s'} {made = made} {gone = gone} fd es r e) =
    let (n, c) = on_connection-made s s' fd es e in
    connects-Holds s s' made gone fd (Run-Holds r) n c
Run-Holds (removes {s = s} {made = made} {gone = gone} id fd r f) =
    removes-Holds s made gone id fd (Run-Holds r) f

-- In every run of a server, the map has a connection under an id exactly if it was made under this id
-- and not removed, and it is the connection that was made: no later one takes its id.
pub connections-made :
    (s : TcpServer) (made : List (ℕ × ℕ)) (gone : List ℕ)
    → Run s made gone
    → (id : ℕ) → find s.connections id ≡ (if is_gone gone id then none else find made id)
connections-made s made gone r = (Run-Holds r).holds
