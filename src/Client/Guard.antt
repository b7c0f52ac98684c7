-- ===== src/Client/Guard.antt =====
-- sevent/net/TcpClient.cpp: which calls reach the connector.
use sevent.Base.{
  ◌≡◌, refl, ap, Bool, true, false, not, ◌&&◌, List, [], ◌∷◌, ◌++◌, arith, if◌then◌else◌,
}
use sevent.Connector.{Connector, connect, set_stop, shutdown_in_loop, force_close_in_loop}
use sevent.Connector.Steps.{Call, step, run}
use sevent.Client.{
  TcpClient, connect_client, shutdown, force_close, ClientCall, connects_client, shuts_down_client,
  force_closes_client, calls, run_client,
}

-- The calls on the connector that some calls on the client come to.
abbrev pub passed : Bool → List ClientCall → List Call
passed started [] = []
passed started (connects_client answer ∷ more) =
    let rest = passed true more in if started then rest else Call.connects answer ∷ rest
passed started (shuts_down_client ∷ more) = Call.sets_stop ∷ Call.shuts_down ∷ passed false more
passed started (force_closes_client ∷ more) = Call.sets_stop ∷ Call.force_closes ∷ passed false more
passed started (calls a ∷ more) = a ∷ passed started more

-- A call of the loop, or of a task that it was given: neither `connect` nor the first line of a stop,
-- which are called by the client alone.
abbrev pub is_event : Call → Bool
is_event (Call.connects answer) = false
is_event Call.sets_stop = false
is_event _ = true

abbrev pub from_loop : List ClientCall → Bool
from_loop [] = true
from_loop (calls a ∷ more) = is_event a && from_loop more
from_loop (_ ∷ more) = from_loop more

-- Between two connects there is a stop.
abbrev pub is_guarded : Bool → List Call → Bool
is_guarded started [] = true
is_guarded started (Call.connects answer ∷ more) = not started && is_guarded true more
is_guarded started (Call.sets_stop ∷ more) = is_guarded false more
is_guarded started (_ ∷ more) = is_guarded started more

passed-guarded :
    (more : List ClientCall) (started : Bool)
    → from_loop more ≡ true
    → is_guarded started (passed started more) ≡ true
passed-guarded [] started h = refl
passed-guarded (connects_client answer ∷ more) true h = passed-guarded more true h
passed-guarded (connects_client answer ∷ more) false h = passed-guarded more true h
passed-guarded (shuts_down_client ∷ more) started h = passed-guarded more false h
passed-guarded (force_closes_client ∷ more) started h = passed-guarded more false h
passed-guarded (calls (Call.connects answer) ∷ more) started h = absurd (ground (arith, h))
passed-guarded (calls (Call.does_connect answer) ∷ more) started h = passed-guarded more started h
passed-guarded (calls Call.times_out ∷ more) started h = passed-guarded more started h
passed-guarded (calls Call.stops ∷ more) started h = passed-guarded more started h
passed-guarded (calls Call.shuts_down ∷ more) started h = passed-guarded more started h
passed-guarded (calls Call.force_closes ∷ more) started h = passed-guarded more started h
passed-guarded (calls Call.sets_stop ∷ more) started h = absurd (ground (arith, h))
passed-guarded (calls Call.errs ∷ more) started h = passed-guarded more started h
passed-guarded (calls Call.removes_connection ∷ more) started h = passed-guarded more started h
passed-guarded (calls (Call.writes a b) ∷ more) started h = passed-guarded more started h

abbrev client : Bool → Connector → TcpClient
client started c = record { started = started; connector = c }

run_client-run :
    (more : List ClientCall) (started : Bool) (c : Connector)
    → ((run_client (client started c) more).0.connector ≡ (run c (passed started more)).0)
      × ((run_client (client started c) more).1 ≡ (run c (passed started more)).1)
unfolding run_client run connect_client shutdown force_close step
run_client-run [] started c = (refl, refl)
run_client-run (connects_client answer ∷ more) true c = run_client-run more true c
run_client-run (connects_client answer ∷ more) false c =
    let (c', es) = connect c answer in
    let rest = run_client-run more true c' in (rest.0, ap (◌++◌ es) rest.1)
run_client-run (shuts_down_client ∷ more) started c =
    let (c', es) = shutdown_in_loop (set_stop c) in
    let rest = run_client-run more false c' in (rest.0, ap (◌++◌ es) rest.1)
run_client-run (force_closes_client ∷ more) started c =
    let (c', es) = force_close_in_loop (set_stop c) in
    let rest = run_client-run more false c' in (rest.0, ap (◌++◌ es) rest.1)
run_client-run (calls a ∷ more) started c =
    let (c', es) = step c a in
    let rest = run_client-run more started c' in (rest.0, ap (◌++◌ es) rest.1)

-- What a client does is what its connector does with the calls that are passed on to it: the connector
-- ends in the same state with the same effects. And between two connects that reach it there is a stop,
-- whatever the user of the client and the loop call.
pub run_client-passed :
    (more : List ClientCall) (t : TcpClient)
    → from_loop more ≡ true
    → ((run_client t more).0.connector ≡ (run t.connector (passed t.started more)).0)
      × ((run_client t more).1 ≡ (run t.connector (passed t.started more)).1)
      × (is_guarded t.started (passed t.started more) ≡ true)
run_client-passed more t h =
    let same = run_client-run more t.started t.connector in
    (same.0, same.1, passed-guarded more t.started h)
