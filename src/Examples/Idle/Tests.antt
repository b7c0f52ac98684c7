-- ===== src/Examples/Idle/Tests.antt =====
-- examples/connection/idleconnection.cpp: three buckets, and a connection that is heard of once.
use sevent.Base.{◌≡◌, refl, inr, true, List, [], ◌∷◌}
use sevent.Examples.Hub.{has}
use sevent.Examples.Idle.{Wheel, Event, connection, message, ends, timer, run}
use sevent.Examples.Idle.Lives.{step-shut}

abbrev wheel : Wheel
wheel = record { front = (1 ∷ []) ∷ [] ∷ []; back = 2 ∷ []; ended = [] }

abbrev seconds : List Event
seconds = timer ∷ connection 3 ∷ timer ∷ ends 2 ∷ timer ∷ []

step-shut_example : has (run wheel (message 1 ∷ seconds)).1 1 ≡ true
step-shut_example = step-shut wheel (message 1) seconds 1 (inr (refl, refl)) refl
