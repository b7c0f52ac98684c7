-- ===== src/Pipeline.antt =====
-- sevent/net/TcpPipeline.cpp: the chain of handlers, towards the user and towards the socket.
-- A handler is an `H`, a message an `M`; what a handler does is `call`, which tells whether the next
-- one is called, and the message that it leaves.
pub mod Order
mod Tests
use sevent.Base.{
  ℕ, ◌≡◌, Bool, true, false, ◌&&◌, Option, none, some, List, [], ◌∷◌, ◌++◌, reverse, if◌then◌else◌,
  Result, ok, err, ◌>>=◌, out_of_bounds,
}

module _ {H M : Type 0} (call : H → M → Bool × M) where
  -- What an `invoke` did: the handlers that it called with what they answered, and the message.
  abbrev pub then_rest : H → Bool × M → List (H × Bool) × M → List (H × Bool) × M
  then_rest h (is_next, msg) (called, last) =
      if is_next then ((h, is_next) ∷ called, last) else ((h, is_next) ∷ [], msg)

  -- `invoke` from a handler on: the list is that handler and those behind it.
  unfoldable pub invoke : List H → M → List (H × Bool) × M
  invoke [] msg = ([], msg)
  invoke (h ∷ handlers) msg = then_rest h (call h msg) (invoke handlers (call h msg).1)

  -- `invoke` from `handlers.front()`, which an empty list does not have.
  unfoldable pub invoke_front : List H → M → Result (List (H × Bool) × M)
  unfolding invoke
  invoke_front [] msg = err out_of_bounds
  invoke_front (h ∷ handlers) msg = ok (invoke (h ∷ handlers) msg)

  -- `write` from a handler: `behind` are the handlers before it, the nearest first. The message is
  -- sent if every handler passed it on.
  abbrev pub all_passed : List (H × Bool) → Bool
  all_passed [] = true
  all_passed ((h, is_next) ∷ called) = is_next && all_passed called

  unfoldable pub write : H → List H → M → List (H × Bool) × Option M
  unfolding invoke
  write h before msg =
      let (called, last) = invoke (h ∷ before) msg in
      (called, if all_passed called then some last else none)

-- `addLast`: `handlers.back()` of an empty list is undefined.
abbrev pub is_empty {ℓ} : {A : Type ℓ} → List A → Bool
is_empty [] = true
is_empty (_ ∷ _) = false

unfoldable pub add_last {ℓ} : {A : Type ℓ} → List A → A → Result (List A)
add_last handlers next = if is_empty handlers then err out_of_bounds else ok (handlers ++ next ∷ [])
