-- ===== src/Server/Rounds.antt =====
-- sevent/net/EventLoopWorkers.cpp: which worker gets which connection.
use sevent.Base.{
  ℕ, suc, ◌+◌, ◌≡◌, refl, sym, ◌∙◌, ap, true, false, some, List, [], ◌∷◌, ◌++◌, leb, le→leb, lt→leb,
  ◌==◌, length, get_elem?, map, length-append, get_elem?-append_length, append_assoc, arith, ok,
}
use sevent.Server.{
  EventLoopWorkers, TcpServer, Effect, run_on_connection, accepted, failed, get_next_loop, advance,
  on_connection, handle_read, erase,
}

-- The connections of one round: the descriptors in order, one for each worker.
abbrev pub dealt : List ℕ → ℕ → List ℕ → List Effect
dealt [] id fds = []
dealt (loop ∷ loops) id [] = []
dealt (loop ∷ loops) id (fd ∷ fds) = run_on_connection loop id fd ∷ dealt loops (suc id) fds

next_lem :
    (before : List ℕ) (loop : ℕ) (behind : List ℕ) (w : EventLoopWorkers)
    → w.worker_loops ≡ before ++ loop ∷ behind
    → w.next_index ≡ length before
    → get_next_loop w ≡ ok (loop, advance w)
unfolding get_next_loop
next_lem before loop behind w e i =
    let size : length w.worker_loops ≡ length before + suc (length behind) =
      ap length e ∙ length-append before (loop ∷ behind) in
    let some_loop : (length w.worker_loops == 0) ≡ false = ground (arith, size) in
    let here : get_elem? w.worker_loops w.next_index ≡ some loop =
      rw (e, i) (get_elem?-append_length before loop behind) in
    rw (some_loop, here) refl

advance_wraps :
    (w : EventLoopWorkers) (before : List ℕ) (loop : ℕ)
    → w.worker_loops ≡ before ++ loop ∷ []
    → w.next_index ≡ length before
    → advance w ≡ record w { next_index = 0 }
advance_wraps w before loop e i =
    let size : length w.worker_loops ≡ length before + 1 =
      ap length e ∙ length-append before (loop ∷ []) in
    let last : leb (length w.worker_loops) (suc w.next_index) ≡ true =
      le→leb (length w.worker_loops) (suc w.next_index) (omega arith) in
    rw last refl

advance_moves :
    (w : EventLoopWorkers) (before : List ℕ) (loop next : ℕ) (behind : List ℕ)
    → w.worker_loops ≡ before ++ loop ∷ next ∷ behind
    → w.next_index ≡ length before
    → advance w ≡ record w { next_index = suc w.next_index }
advance_moves w before loop next behind e i =
    let size : length w.worker_loops ≡ length before + suc (suc (length behind)) =
      ap length e ∙ length-append before (loop ∷ next ∷ behind) in
    let more : leb (length w.worker_loops) (suc w.next_index) ≡ false =
      lt→leb (length w.worker_loops) (suc w.next_index) (omega arith) in
    rw more refl

-- The server after a connection for a worker, with the workers `w`.
abbrev with_connection : TcpServer → EventLoopWorkers → ℕ → TcpServer
with_connection s w fd = record {
  next_id = suc s.next_id;
  workers = w;
  connections = (s.next_id, fd) ∷ erase s.connections s.next_id;
}

on_connection_lem :
    (s : TcpServer) (fd loop : ℕ) (w : EventLoopWorkers)
    → get_next_loop s.workers ≡ ok (loop, w)
    → on_connection s fd ≡ ok (with_connection s w fd, run_on_connection loop s.next_id fd ∷ [])
unfolding on_connection
on_connection_lem s fd loop w e = rw e refl

-- What a round leaves: the connections are dealt, the ids are used, and the next round starts anew.
pub record Dealt (s s' : TcpServer) (loops fds : List ℕ) (es : List Effect) : Type 0 where
  pub effects : es ≡ dealt loops s.next_id fds
  pub ids : s'.next_id ≡ s.next_id + length fds
  pub anew : s'.workers.next_index ≡ 0
  pub kept : s'.workers.worker_loops ≡ s.workers.worker_loops

rest_of_round :
    (loop : ℕ) (behind before fds : List ℕ) (s : TcpServer)
    → s.workers.worker_loops ≡ before ++ loop ∷ behind
    → s.workers.next_index ≡ length before
    → length fds ≡ suc (length behind)
    → (s' : TcpServer) × (es : List Effect) × (handle_read s (map accepted fds ++ failed ∷ [])
        ≡ ok (s', es))
      × Dealt s s' (loop ∷ behind) fds es
unfolding handle_read
rest_of_round loop behind before [] s e i n = absurd (omega arith)
rest_of_round loop [] before (fd ∷ fd₂ ∷ fds) s e i n = absurd (omega arith)
rest_of_round loop [] before (fd ∷ []) s e i n =
    let w = record s.workers { next_index = 0 } in
    let got : get_next_loop s.workers ≡ ok (loop, w) =
      next_lem before loop [] s.workers e i
      ∙ ap (λ v. ok (loop, v)) (advance_wraps s.workers before loop e i) in
    (
      with_connection s w fd,
      run_on_connection loop s.next_id fd ∷ [],
      rw (on_connection_lem s fd loop w got) refl,
      record { effects = refl; ids = omega arith; anew = refl; kept = refl },
    )
rest_of_round loop (next ∷ behind) before (fd ∷ fds) s e i n =
    let w = record s.workers { next_index = suc s.workers.next_index } in
    let got : get_next_loop s.workers ≡ ok (loop, w) =
      next_lem before loop (next ∷ behind) s.workers e i
      ∙ ap (λ v. ok (loop, v)) (advance_moves s.workers before loop next behind e i) in
    let (s', es, done, d) =
      rest_of_round next behind (before ++ loop ∷ []) fds (with_connection s w fd)
        (e ∙ sym (append_assoc before (loop ∷ []) (next ∷ behind)))
        (omega (arith, i, length-append before (loop ∷ []))) (omega (arith, n)) in
    (
      s',
      run_on_connection loop s.next_id fd ∷ es,
      rw (on_connection_lem s fd loop w got, done) refl,
      record {
        effects = ap (λ l. run_on_connection loop s.next_id fd ∷ l) d.effects;
        ids = omega (arith, d.ids);
        anew = d.anew;
        kept = d.kept;
      },
    )

-- A server whose next worker is the first, and which has one at least, accepts as many connections as
-- it has workers: each worker gets one, in the order of the workers, under the next ids in turn, and
-- the next worker is the first again.
pub handle_read-Dealt :
    (loop : ℕ) (loops fds : List ℕ) (s : TcpServer)
    → s.workers.worker_loops ≡ loop ∷ loops
    → s.workers.next_index ≡ 0
    → length fds ≡ suc (length loops)
    → (s' : TcpServer) × (es : List Effect) × (handle_read s (map accepted fds ++ failed ∷ [])
        ≡ ok (s', es))
      × Dealt s s' (loop ∷ loops) fds es
handle_read-Dealt loop loops fds s e i n = rest_of_round loop loops [] fds s e i n
