-- ===== src/Server.antt =====
-- sevent/net/TcpServer.cpp, sevent/net/Acceptor.cpp and sevent/net/EventLoopWorkers.cpp: how a server
-- accepts connections and deals them to its workers. A loop and a descriptor are numbers.
pub mod Rounds
pub mod Connections
mod Tests
use sevent.Base.{
  ℕ, suc, ◌+◌, ◌≡◌, Bool, true, false, Option, none, some, List, [], ◌∷◌, ◌++◌, leb, ◌==◌, length,
  get_elem?, if◌then◌else◌, Result, ok, err, ◌>>=◌, assertion, out_of_bounds,
}

pub record EventLoopWorkers : Type 0 where
  pub baseloop : ℕ
  pub worker_loops : List ℕ
  pub next_index : ℕ

-- `threads` are the loops of the threads that `start` makes, one for each of `threadNums`.
unfoldable pub start : ℕ → List ℕ → EventLoopWorkers
start baseloop threads = record {
  baseloop = baseloop;
  worker_loops = if length threads == 0 then baseloop ∷ [] else threads;
  next_index = 0;
}

abbrev pub advance : EventLoopWorkers → EventLoopWorkers
advance w =
    if leb (length w.worker_loops) (suc w.next_index)
    then record w { next_index = 0 }
    else record w { next_index = suc w.next_index }

abbrev pub loop_at : EventLoopWorkers → Option ℕ → Result (ℕ × EventLoopWorkers)
loop_at w none = err out_of_bounds
loop_at w (some loop) = ok (loop, advance w)

unfoldable pub get_next_loop : EventLoopWorkers → Result (ℕ × EventLoopWorkers)
get_next_loop w =
    if length w.worker_loops == 0
    then err assertion
    else loop_at w (get_elem? w.worker_loops w.next_index)

-- A task for a worker, `TcpConnection::onConnection` of a new connection, and what `accept` does to
-- the descriptor that is held back for `EMFILE`.
pub data Effect : Type 0 where
  run_on_connection : ℕ → ℕ → ℕ → Effect
  close_idle_fd accept_idle_fd open_idle_fd : Effect

pub record TcpServer : Type 0 where
  pub next_id : ℕ
  pub workers : EventLoopWorkers
  pub connections : List (ℕ × ℕ)

-- `connections[id] = connection` and `connections.erase(id)`
abbrev pub erase : List (ℕ × ℕ) → ℕ → List (ℕ × ℕ)
erase [] id = []
erase ((key, fd) ∷ entries) id =
    if key == id then erase entries id else (key, fd) ∷ erase entries id

unfoldable pub on_connection : TcpServer → ℕ → Result (TcpServer × List Effect)
unfolding get_next_loop
on_connection s sockfd = do
  (worker, workers) ← get_next_loop s.workers
  ok (
    record {
      next_id = suc s.next_id;
      workers = workers;
      connections = (s.next_id, sockfd) ∷ erase s.connections s.next_id;
    },
    run_on_connection worker s.next_id sockfd ∷ [],
  )

unfoldable pub remove_connection_in_loop : TcpServer → ℕ → TcpServer
remove_connection_in_loop s id = record s { connections = erase s.connections id }

-- What the system's `accept` answers: a descriptor, `EMFILE`, or another error.
pub data Answer : Type 0 where
  accepted : ℕ → Answer
  too_many failed : Answer

-- `Acceptor::handleRead`: `accept` until it fails. The answers are those of the calls, in order.
unfoldable pub handle_read : TcpServer → List Answer → Result (TcpServer × List Effect)
unfolding on_connection
handle_read s [] = ok (s, [])
handle_read s (failed ∷ answers) = ok (s, [])
handle_read s (too_many ∷ answers) =
    ok (s, close_idle_fd ∷ accept_idle_fd ∷ close_idle_fd ∷ open_idle_fd ∷ [])
handle_read s (accepted fd ∷ answers) = do
  (s', es) ← on_connection s fd
  (s'', fs) ← handle_read s' answers
  ok (s'', es ++ fs)
