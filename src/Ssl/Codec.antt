-- ===== src/Ssl/Codec.antt =====
-- sevent/net/ssl/SslCodec.cpp: the handler of a pipeline that decrypts and encrypts.
pub mod Connecting
pub mod Total
use sevent.Base.{
  ℕ, zero, suc, Bool, true, false, not, Option, none, some, List, [], ◌∷◌, ◌++◌, ◌==◌, length,
  if◌then◌else◌, Result, ok, bind_run,
}
use sevent.Base.Memory.{slice}
use sevent.Buffer.{Buffer, readable_bytes, retrieve, create, initial_size}
use sevent.Ssl.{
  OpenSsl, Status, ssl_ok, ssl_want, ssl_close, ssl_fail, get_ssl_status, SslHandler, ConnectStatus,
  connecting, connected, bio_read, decrypt, encrypt,
}

-- What the codec asks of the connection and of the handlers behind it.
pub data Effect : Type 0 where
  send : List ℕ → Effect
  shutdown : Effect
  next_on_connection : Effect
  next_on_message : List ℕ → Effect

-- What can be read from a buffer.
abbrev pub readable : Buffer → List ℕ
readable b = slice b.bytes b.read_index (readable_bytes b)

abbrev pub send_if_any : Buffer → List Effect
send_if_any b = if readable_bytes b == 0 then [] else send (readable b) ∷ []

abbrev pub is_connecting : ConnectStatus → Bool
is_connecting connecting = true
is_connecting connected = false

module _ {S : Type 0} (o : OpenSsl S) (fuel : S → ℕ) where
  -- `bioRead` into a fresh buffer.
  abbrev pub flush : SslHandler S → Option (Result (SslHandler S × Buffer))
  flush h =
      bind_run (bio_read o fuel h.ssl (create initial_size))
        (λ r. some (ok (record h { ssl = r.1 }, r.2)))

  -- `onConnection`: a client sends its ClientHello.
  unfoldable pub on_connection : Bool → SslHandler S → Option (Result (SslHandler S × List Effect))
  on_connection is_client h =
      let (code, s) = o.do_handshake h.ssl in
      if is_client
      then elim (get_ssl_status code) [
        | ssl_want ↦
            bind_run (flush (record h { ssl = s })) (λ r. some (ok (r.0, send (readable r.1) ∷ [])))
        | ssl_fail ↦ some (ok (record h { ssl = s }, shutdown ∷ []))
        | _ ↦ some (ok (record h { ssl = s }, []))
      ]
      else some (ok (h, []))

  -- What a turn of the loop does with the status that `decrypt` returned: the handler, the effects, and
  -- whether the loop goes on.
  unfoldable pub after_decrypt :
      Status → SslHandler S → Option (Result (SslHandler S × List Effect × Bool))
  after_decrypt ssl_want h =
      if not (o.is_init_finished h.ssl)
      then bind_run (flush h) (λ r. some (ok (r.0, send_if_any r.1, false)))
      else if is_connecting h.status
      then some (ok (record h { status = connected }, next_on_connection ∷ [], true))
      else some (ok (h, [], true))
  after_decrypt ssl_fail h = some (ok (h, shutdown ∷ [], false))
  after_decrypt ssl_ok h = some (ok (h, [], true))
  after_decrypt ssl_close h = some (ok (h, [], true))

  -- What was decrypted goes to the next handler.
  abbrev pub pass_on : Buffer → List Effect
  pass_on b = if readable_bytes b == 0 then [] else next_on_message (readable b) ∷ []

  -- `while (buf->readableBytes() > 0)`, and what is behind it; `none` when the fuel runs out.
  unfoldable pub message_loop :
      ℕ → SslHandler S → List ℕ → Option (Result (SslHandler S × List Effect))
  unfolding after_decrypt
  message_loop zero h input = none
  message_loop (suc turns) h input =
      if length input == 0
      then some (ok (h, pass_on h.decrypt_data))
      else bind_run (decrypt o fuel h input) (λ d. bind_run (after_decrypt d.0 d.1) (λ a.
        if a.2
        then bind_run (message_loop turns a.0 d.2) (λ r. some (ok (r.0, a.1 ++ r.1)))
        else some (ok (a.0, a.1))))

  unfoldable pub on_message : SslHandler S → List ℕ → Option (Result (SslHandler S × List Effect))
  unfolding message_loop
  on_message h input = message_loop (suc (length input)) h input

  -- Messages in turn: each is an input, and how many decrypted bytes the next handler then retrieves.
  unfoldable pub run :
      SslHandler S → List (List ℕ × ℕ) → Option (Result (SslHandler S × List Effect))
  unfolding on_message
  run h [] = some (ok (h, []))
  run h ((input, n) ∷ messages) = bind_run (on_message h input) (λ m.
      bind_run (run (record m.0 { decrypt_data = retrieve m.0.decrypt_data n }) messages)
        (λ r. some (ok (r.0, m.1 ++ r.1))))

  -- `handleWrite`: the message that is passed on, if it is.
  unfoldable pub handle_write :
      SslHandler S → List ℕ → Option (Result (SslHandler S × List Effect × Option (List ℕ)))
  handle_write h bytes = bind_run (encrypt o fuel h bytes) (λ e. elim e.0 [
    | ssl_want ↦
        if not (o.is_init_finished e.1.ssl)
        then bind_run (flush e.1) (λ r. some (ok (r.0, send (readable r.1) ∷ [], none)))
        else some (ok (e.1, [], some (readable e.1.encrypt_data)))
    | ssl_fail ↦ some (ok (e.1, shutdown ∷ [], none))
    | _ ↦ some (ok (e.1, [], some (readable e.1.encrypt_data)))
  ])
