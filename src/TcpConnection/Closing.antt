-- ===== src/TcpConnection/Closing.antt =====
-- sevent/net/TcpConnection.cpp: the closing of a connection over its whole life.
use sevent.Base.{◌⊎◌, true, err, assertion, ◌+◌, ◌≡◌, false, List, ok}
use sevent.TcpConnection.{Conn, Effect, destroy}
use sevent.TcpConnection.Lifecycle.{tally, is_closed}

-- What the destructor does behind a run: a closed connection has its descriptor closed once, by the run
-- or by the destructor; the destructor of one that is not closed fails its assert, and the run did not
-- close the descriptor.
abbrev pub Destroyed : Conn → List Effect → Type 0
Destroyed c es =
    ((fs : List Effect) × (is_closed c ≡ true)
      × (destroy c ≡ ok fs)
      × ((tally es).fd_closed + (tally fs).fd_closed ≡ 1))
    ⊎ ((is_closed c ≡ false) × (destroy c ≡ err assertion) × ((tally es).fd_closed ≡ 0))
