-- ===== src/Connector/Steps.antt =====
-- sevent/net/Connector.cpp: what happens to a connector, one call at a time.
use sevent.Base.{Bool, List, [], ◌∷◌, ◌++◌}
use sevent.Connector.{
  Connector, ConnectAnswer, Effect, connect, doconnect, do_timeout, stop_in_loop, shutdown_in_loop,
  force_close_in_loop, set_stop, handle_write, handle_error, remove_connection,
}

pub data Call : Type 0 where
  connects does_connect : ConnectAnswer → Call
  times_out stops shuts_down force_closes sets_stop errs : Call
  removes_connection : Call
  writes : Bool → Bool → Call

unfoldable pub step : Connector → Call → Connector × List Effect
step c (connects answer) = connect c answer
step c (does_connect answer) = doconnect c answer
step c times_out = do_timeout c
step c stops = stop_in_loop c
step c shuts_down = shutdown_in_loop c
step c force_closes = force_close_in_loop c
step c sets_stop = (set_stop c, [])
step c errs = handle_error c
step c removes_connection = remove_connection c
step c (writes is_error is_self_connect) = handle_write c is_error is_self_connect

unfoldable pub run : Connector → List Call → Connector × List Effect
run c [] = (c, [])
run c (a ∷ calls) = let (c', es) = step c a in let (c'', fs) = run c' calls in (c'', es ++ fs)
