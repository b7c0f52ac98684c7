-- ===== src/Pipeline/Order.antt =====
-- sevent/net/TcpPipeline.cpp: which handlers a message meets.
use sevent.Base.{
  ◌≡◌, ◌⊎◌, inl, inr, refl, ap, Bool, Bool-cases, true, false, ◌&&◌, List, [], ◌∷◌, ◌++◌,
}
use sevent.Pipeline.{invoke, all_passed}

module _ {H M : Type 0} (call : H → M → Bool × M) where
  -- Every handler before the last one that was called passed the message on.
  abbrev pub passed_before_last : List (H × Bool) → Bool
  passed_before_last [] = true
  passed_before_last ((h, is_next) ∷ []) = true
  passed_before_last ((h, is_next) ∷ c ∷ called) = is_next && passed_before_last (c ∷ called)

  abbrev pub handlers_of : List (H × Bool) → List H
  handlers_of [] = []
  handlers_of ((h, is_next) ∷ called) = h ∷ handlers_of called

  passed_cons :
      (h : H) (called : List (H × Bool))
      → passed_before_last called ≡ true
      → passed_before_last ((h, true) ∷ called) ≡ true
  passed_cons h [] p = refl
  passed_cons h (c ∷ called) p = p

  -- An `invoke` calls the handlers in their order from the first on: each but the last that was called
  -- passed the message on, and the rest was left out only if the last one did not.
  pub invoke_lem :
      (handlers : List H) (msg : M)
      → (rest : List H) × (handlers_of (invoke call handlers msg).0 ++ rest ≡ handlers)
        × (passed_before_last (invoke call handlers msg).0 ≡ true)
        × ((rest ≡ []) ⊎ (all_passed call (invoke call handlers msg).0 ≡ false))
  unfolding invoke
  invoke_lem [] msg = ([], refl, refl, inl refl)
  invoke_lem (h ∷ handlers) msg = elim (Bool-cases (call h msg).0) [
    | inr stops ↦ (handlers, rw stops refl, rw stops refl, inr (rw stops refl))
    | inl passes ↦
        let (rest, parts, before, ends) = invoke_lem handlers (call h msg).1 in
        (
          rest,
          rw passes (ap (λ l. h ∷ l) parts),
          rw passes (passed_cons h (invoke call handlers (call h msg).1).0 before),
          rw passes ends,
        )
  ]
