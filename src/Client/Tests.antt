-- ===== src/Client/Tests.antt =====
-- A run of sevent/net/TcpClient.cpp, and the theorem at it.
use sevent.Base.{◌≡◌, refl, true, false, List, [], ◌∷◌}
use sevent.Connector.{in_progress}
use sevent.Connector.Steps.{Call, run}
use sevent.Client.{create_client, connects_client, shuts_down_client, calls, ClientCall, run_client}
use sevent.Client.Guard.{is_guarded, run_client-passed}

-- Two connects, of which the second one does nothing, and one more after a shutdown.
abbrev session : List ClientCall
session =
    connects_client in_progress
    ∷ connects_client in_progress
    ∷ calls (Call.writes false false)
    ∷ shuts_down_client
    ∷ connects_client in_progress
    ∷ []

abbrev given : List Call
given =
    Call.connects in_progress
    ∷ Call.writes false false
    ∷ Call.sets_stop
    ∷ Call.shuts_down
    ∷ Call.connects in_progress
    ∷ []

run_client-passed_example :
    ((run_client create_client session).0.connector ≡ (run create_client.connector given).0)
    × ((run_client create_client session).1 ≡ (run create_client.connector given).1)
    × (is_guarded false given ≡ true)
run_client-passed_example = run_client-passed session create_client refl
