-- ===== src/Server/Tests.antt =====
-- Runs of sevent/net/TcpServer.cpp, and the theorems at them.
use sevent.Base.{◌≡◌, none, refl, List, [], ◌∷◌, ok}
use sevent.Server.{
  TcpServer, Effect, accepted, failed, handle_read, run_on_connection, on_connection,
  remove_connection_in_loop,
}
use sevent.Server.Connections.{Run, starts, connects, removes, find, connections-made}
use sevent.Server.Rounds.{Dealt, handle_read-Dealt}

abbrev server : TcpServer
server = record {
  next_id = 1;
  workers = record { baseloop = 0; worker_loops = 10 ∷ 20 ∷ []; next_index = 0 };
  connections = [];
}

handle_read-Dealt_example :
    (s' : TcpServer) × (es : List Effect) × (handle_read server
        (accepted 5 ∷ accepted 6 ∷ failed ∷ [])
      ≡ ok (s', es))
    × Dealt server s' (10 ∷ 20 ∷ []) (5 ∷ 6 ∷ []) es
handle_read-Dealt_example = handle_read-Dealt 10 (20 ∷ []) (5 ∷ 6 ∷ []) server refl refl refl

abbrev one_connected : TcpServer
one_connected = record {
  next_id = 2;
  workers = record { baseloop = 0; worker_loops = 10 ∷ 20 ∷ []; next_index = 1 };
  connections = (1, 5) ∷ [];
}

abbrev two_connected : TcpServer
two_connected = record {
  next_id = 3;
  workers = record { baseloop = 0; worker_loops = 10 ∷ 20 ∷ []; next_index = 0 };
  connections = (2, 6) ∷ (1, 5) ∷ [];
}

one_connects : on_connection server 5 ≡ ok (one_connected, run_on_connection 10 1 5 ∷ [])
unfolding on_connection
one_connects = refl

two_connect : on_connection one_connected 6 ≡ ok (two_connected, run_on_connection 20 2 6 ∷ [])
unfolding on_connection
two_connect = refl

abbrev one_removed : TcpServer
unfolding remove_connection_in_loop
one_removed = remove_connection_in_loop two_connected 1

one_removed-Run : Run one_removed ((2, 6) ∷ (1, 5) ∷ []) (1 ∷ [])
unfolding one_removed
one_removed-Run =
    removes 1 5
      (connects 6 (run_on_connection 20 2 6 ∷ [])
        (connects 5 (run_on_connection 10 1 5 ∷ []) (starts 1 server.workers) one_connects)
        two_connect)
      refl

connections-made_example : find one_removed.connections 1 ≡ none
connections-made_example =
    connections-made one_removed ((2, 6) ∷ (1, 5) ∷ []) (1 ∷ []) one_removed-Run 1
