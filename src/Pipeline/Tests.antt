-- ===== src/Pipeline/Tests.antt =====
-- A run of sevent/net/TcpPipeline.cpp, and the theorem at it.
use sevent.Base.{ℕ, ◌+◌, ◌≡◌, ◌⊎◌, Bool, true, false, ltb, List, [], ◌∷◌, ◌++◌}
use sevent.Pipeline.{invoke, all_passed}
use sevent.Pipeline.Order.{handlers_of, passed_before_last, invoke_lem}

-- A handler adds its number, and passes a message below ten on.
abbrev adds : ℕ → ℕ → Bool × ℕ
adds h msg = (ltb msg 10, msg + h)

invoke_example :
    (rest : List ℕ) × (handlers_of adds (invoke adds (4 ∷ 8 ∷ 2 ∷ []) 3).0 ++ rest ≡ 4 ∷ 8 ∷ 2 ∷ [])
    × (passed_before_last adds (invoke adds (4 ∷ 8 ∷ 2 ∷ []) 3).0 ≡ true)
    × ((rest ≡ []) ⊎ (all_passed adds (invoke adds (4 ∷ 8 ∷ 2 ∷ []) 3).0 ≡ false))
invoke_example = invoke_lem adds (4 ∷ 8 ∷ 2 ∷ []) 3
