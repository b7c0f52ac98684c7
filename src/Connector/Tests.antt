-- ===== src/Connector/Tests.antt =====
-- Runs of sevent/net/Connector.cpp, and the theorems at them.
use sevent.Base.{◌+◌, ◌≡◌, refl, true, false, List, [], ◌∷◌, arith, length}
use sevent.Base.Int.{pos}
use sevent.Connector.{Connector, create_connector, in_progress, try_again}
use sevent.Connector.Steps.{Call, run}
use sevent.Connector.Descriptors.{opened, released, held, run-balance}
use sevent.Connector.Retries.{delays, doubling, run-backoff}
use sevent.Connector.Limits.{begun, run-stopped}

-- Refused, refused again, in progress, and then connected.
abbrev calls : List Call
calls =
    Call.does_connect try_again
    ∷ Call.does_connect try_again
    ∷ Call.does_connect in_progress
    ∷ Call.writes false false
    ∷ []

abbrev going : Connector
going = record create_connector { is_stop = false; retry_cur = pos 3 }

run-balance_example :
    held create_connector + opened (run create_connector (Call.connects try_again ∷ [])).1
    ≡ held (run create_connector (Call.connects try_again ∷ [])).0
      + released (run create_connector (Call.connects try_again ∷ [])).1
run-balance_example = run-balance create_connector (Call.connects try_again ∷ []) refl

run-backoff_example :
    delays (run going calls).1 ≡ doubling (length (delays (run going calls).1)) 500
run-backoff_example = run-backoff calls going refl (omega arith)

run-stopped_example :
    ((run create_connector calls).0.is_stop ≡ true) × (begun (run create_connector calls).1 ≡ 0)
run-stopped_example = run-stopped calls create_connector refl refl
