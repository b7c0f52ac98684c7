-- ===== src/TcpConnection/Calm.antt =====
-- sevent/net/TcpConnection.cpp: what is counted of a closing, and that `sendInLoopBuf` does nothing of it.
use sevent.Base.{
  ℕ, suc, ◌≡◌, subst, Bool, Bool-cases, inl, inr, true, false, List, [], ◌∷◌, ◌++◌, append-nil,
  arith, ok, ◌>>=◌, if◌then◌else◌, ok-injective, >>=-eq-ok,
}
use sevent.Base.Memory.{load}
use sevent.Buffer.{Buffer, readable_bytes}
use sevent.TcpConnection.{
  Conn, disconnected, same_state, WriteAnswer, wrote, failed, Effect, update,
}
use sevent.TcpConnection.Sending.{
  attempt, try_write, high_water, want_write, take_buf, keep_buf, send_in_loop_buf, forget_rest,
}

-- How often `onClose` was called, the channel left the poller, the owner was told, the descriptor
-- was closed.
pub record Tally : Type 0 where
  pub on_close : ℕ
  pub unregistered : ℕ
  pub removed : ℕ
  pub fd_closed : ℕ

abbrev pub tally : List Effect → Tally
tally [] = record { on_close = 0; unregistered = 0; removed = 0; fd_closed = 0 }
tally (Effect.call_on_close ∷ es) = let t = tally es in record t { on_close = suc t.on_close }
tally (Effect.remove_channel ∷ es) =
    let t = tally es in record t { unregistered = suc t.unregistered }
tally (Effect.remove_connection id ∷ es) = let t = tally es in record t { removed = suc t.removed }
tally (Effect.close_fd ∷ es) = let t = tally es in record t { fd_closed = suc t.fd_closed }
tally (_ ∷ es) = tally es

pub record Calm (c c' : Conn) (es : List Effect) : Type 0 where
  pub handler : c'.has_handler ≡ c.has_handler
  pub state : same_state c'.state disconnected ≡ same_state c.state disconnected
  pub fd : c'.fd ≡ c.fd
  pub on_close : (tally es).on_close ≡ 0
  pub unregistered : (tally es).unregistered ≡ 0
  pub removed : (tally es).removed ≡ 0
  pub fd_closed : (tally es).fd_closed ≡ 0

want_write-Calm :
    (c : Conn) (out : Buffer) (n : ℕ)
    → Calm c
        (want_write (record c { output_buf = out })).0
        (high_water c n ++ (want_write (record c { output_buf = out })).1)
unfolding high_water want_write update
want_write-Calm c out n = ground arith

keep_buf-Calm :
    (c : Conn) (buf : Buffer) (r : Conn × Buffer × List Effect)
    → keep_buf c buf ≡ ok r
    → Calm c r.0 r.2
unfolding keep_buf
keep_buf-Calm c buf r h =
    let (p, took, e) = >>=-eq-ok (take_buf c.output_buf buf) _ h in
    subst (λ (t : Conn × Buffer × List Effect). Calm c t.0 t.2) (ok-injective e)
      (want_write-Calm c p.0 (readable_bytes buf))

attempt-tally :
    (c : Conn) (xs : List ℕ) (answer : WriteAnswer) (es : List Effect)
    → tally ((attempt c xs answer).done ++ es) ≡ tally es
unfolding attempt try_write
attempt-tally c xs (wrote n) es = ground arith
attempt-tally c xs (failed e) es = ground arith

behind-Calm :
    (c c' : Conn) (xs : List ℕ) (answer : WriteAnswer) (es : List Effect)
    → Calm c c' es
    → Calm c c' ((attempt c xs answer).done ++ es)
behind-Calm c c' xs answer es k =
    let t = attempt-tally c xs answer es in
    record {
      handler = k.handler;
      state = k.state;
      fd = k.fd;
      on_close = rw t k.on_close;
      unregistered = rw t k.unregistered;
      removed = rw t k.removed;
      fd_closed = rw t k.fd_closed;
    }

still : (c : Conn) → Calm c c []
still c = ground arith

-- What is behind the attempt.
finish-Calm :
    (c : Conn) (xs : List ℕ) (answer : WriteAnswer) (buf : Buffer) (b : Bool)
    (r : Conn × Buffer × List Effect)
    → (if b
        then (keep_buf c buf >>= λ (t : Conn × Buffer × List Effect).
            ok (t.0, t.1, (attempt c xs answer).done ++ t.2))
        else ok (c, buf, (attempt c xs answer).done))
      ≡ ok r
    → Calm c r.0 r.2
finish-Calm c xs answer buf true r h =
    let (t, kept, e) = >>=-eq-ok (keep_buf c buf) _ h in
    subst (λ (t : Conn × Buffer × List Effect). Calm c t.0 t.2) (ok-injective e)
      (behind-Calm c t.0 xs answer t.2 (keep_buf-Calm c buf t kept))
finish-Calm c xs answer buf false r h =
    subst (λ (t : Conn × Buffer × List Effect). Calm c t.0 t.2) (ok-injective h)
      (rw (← append-nil (attempt c xs answer).done) (behind-Calm c c xs answer [] (still c)))

pub send_buf-Calm :
    (c c' : Conn) (es : List Effect) (buf : Buffer) (answer : WriteAnswer)
    → (send_in_loop_buf c buf answer >>= forget_rest) ≡ ok (c', es)
    → Calm c c' es
unfolding send_in_loop_buf
send_buf-Calm c c' es buf answer = elim (Bool-cases (same_state c.state disconnected)) [
  | inl gone ↦
      simp gone (λ h. subst (λ (t : Conn × List Effect). Calm c t.0 t.1) (ok-injective h) (still c))
  | inr here ↦ simp here (λ h.
      let (r, sent, f) = >>=-eq-ok _ forget_rest h in
      let (xs, loaded, rest) =
        >>=-eq-ok (load buf.bytes buf.read_index (readable_bytes buf)) _ sent in
      subst (λ (t : Conn × List Effect). Calm c t.0 t.1) (ok-injective f)
        (finish-Calm c xs answer _ _ r rest))
]
