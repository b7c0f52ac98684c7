-- ===== src/Client.antt =====
-- sevent/net/TcpClient.cpp: the connector behind the guard of the client.
pub mod Guard
mod Tests
use sevent.Base.{Bool, true, false, List, [], ◌∷◌, ◌++◌, if◌then◌else◌}
use sevent.Connector.{
  Connector, ConnectAnswer, Effect, create_connector, connect, set_stop, shutdown_in_loop,
  force_close_in_loop,
}
use sevent.Connector.Steps.{Call, step}

pub record TcpClient : Type 0 where
  pub started : Bool
  pub connector : Connector

abbrev pub create_client : TcpClient
create_client = record { started = false; connector = create_connector }

-- `connect` in the thread of the loop: `started.exchange(true)`.
unfoldable pub connect_client : TcpClient → ConnectAnswer → TcpClient × List Effect
connect_client t answer =
    if t.started
    then (t, [])
    else let (c, es) = connect t.connector answer in (record { started = true; connector = c }, es)

-- `shutdown` and `forceClose`, which stop the connector and then run in the loop.
unfoldable pub shutdown : TcpClient → TcpClient × List Effect
shutdown t =
    let (c, es) = shutdown_in_loop (set_stop t.connector) in
    (record { started = false; connector = c }, es)

unfoldable pub force_close : TcpClient → TcpClient × List Effect
force_close t =
    let (c, es) = force_close_in_loop (set_stop t.connector) in
    (record { started = false; connector = c }, es)

-- What the user of a client does, and what the loop calls on its connector: anything but a connect.
pub data ClientCall : Type 0 where
  connects_client : ConnectAnswer → ClientCall
  shuts_down_client force_closes_client : ClientCall
  calls : Call → ClientCall

unfoldable pub step_client : TcpClient → ClientCall → TcpClient × List Effect
unfolding connect_client shutdown force_close
step_client t (connects_client answer) = connect_client t answer
step_client t shuts_down_client = shutdown t
step_client t force_closes_client = force_close t
step_client t (calls a) = let (c, es) = step t.connector a in (record t { connector = c }, es)

unfoldable pub run_client : TcpClient → List ClientCall → TcpClient × List Effect
unfolding step_client
run_client t [] = (t, [])
run_client t (a ∷ more) =
    let (t', es) = step_client t a in let (t'', fs) = run_client t' more in (t'', es ++ fs)
