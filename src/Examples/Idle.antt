-- ===== src/Examples/Idle.antt =====
-- examples/connection/idleconnection.cpp: the buckets of the connections that were heard of, of which
-- one is dropped each second. There is one at least, since `back()` of an empty deque is undefined. A
-- connection is a number, and its `Connection` ends with the last bucket that holds it.
pub mod Buckets
pub mod Lives
mod Tests
use sevent.Base.{ℕ, Bool, true, false, not, ◌||◌, List, [], ◌∷◌, ◌++◌, if◌then◌else◌}
use sevent.Examples.Hub.{has, add}

-- All buckets but the last, the first to be dropped first, the last one, and the connections that were
-- destroyed, so that a weak pointer to them is empty.
pub record Wheel : Type 0 where
  pub front : List (List ℕ)
  pub back : List ℕ
  pub ended : List ℕ

abbrev pub held : List (List ℕ) → ℕ → Bool
held [] c = false
held (b ∷ bs) c = has b c || held bs c

-- The connections of a bucket that no other bucket holds: their `Connection` ends, and `~Connection`
-- shuts down those that still live.
abbrev pub only_here : List ℕ → List ℕ → List (List ℕ) → List ℕ
only_here ended [] bs = []
only_here ended (c ∷ cs) bs =
    let rest = only_here ended cs bs in if held bs c || has ended c then rest else c ∷ rest

pub data Event : Type 0 where
  connection message ends : ℕ → Event
  timer : Event

unfoldable pub insert_back : Wheel → ℕ → Wheel
insert_back w c = record w { back = add w.back c }

-- `pop_front` and `push_back`, with the connections that are shut down.
unfoldable pub on_timer : List ℕ → List (List ℕ) → List ℕ → Wheel × List ℕ
on_timer ended [] back = (record { front = []; back = []; ended = ended }, only_here ended back [])
on_timer ended (b ∷ bs) back = (
  record { front = bs ++ back ∷ []; back = []; ended = ended },
  only_here ended b (bs ++ back ∷ []),
)

-- A message of a connection whose `Connection` ended is answered, and nothing is inserted.
unfoldable pub step : Wheel → Event → Wheel × List ℕ
unfolding insert_back on_timer
step w (connection c) = (insert_back w c, [])
step w (message c) = (if held (w.front ++ w.back ∷ []) c then insert_back w c else w, [])
step w (ends c) = (record w { ended = c ∷ w.ended }, [])
step w timer = on_timer w.ended w.front w.back

unfoldable pub run : Wheel → List Event → Wheel × List ℕ
unfolding step
run w [] = (w, [])
run w (e ∷ es) = let (w', shut) = step w e in let (w'', more) = run w' es in (w'', shut ++ more)
