-- ===== src/Ssl/Codec/Connecting.antt =====
-- sevent/net/ssl/SslCodec.cpp: when the handlers behind it are told of the connection.
use sevent.Base.{
  ℕ, zero, suc, ◌+◌, ◌≡◌, refl, sym, ap, subst, Bool, Bool-cases, inl, inr, true, some, List, [],
  ◌∷◌, ◌++◌, ◌==◌, length, arith, ok, run-cases, run-injective, run-none, run-err,
}
use sevent.Buffer.{Buffer, create, initial_size, retrieve, readable_bytes}
use sevent.Ssl.{
  OpenSsl, Status, ssl_ok, ssl_want, ssl_close, ssl_fail, SslHandler, ConnectStatus, connecting,
  connected, bio_read, ssl_read, decrypt, grow_for,
}
use sevent.Ssl.Codec.{
  Effect, flush, send, shutdown, next_on_connection, next_on_message, pass_on, after_decrypt,
  message_loop, on_message, run, is_connecting, send_if_any,
}

abbrev pub connects : List Effect → ℕ
connects [] = 0
connects (next_on_connection ∷ es) = suc (connects es)
connects (_ ∷ es) = connects es

abbrev pub rank : ConnectStatus → ℕ
rank connecting = 0
rank connected = 1

connects-append : (es fs : List Effect) → connects (es ++ fs) ≡ connects es + connects fs
connects-append [] fs = omega arith
connects-append (send xs ∷ es) fs = connects-append es fs
connects-append (shutdown ∷ es) fs = connects-append es fs
connects-append (next_on_connection ∷ es) fs = omega (arith, connects-append es fs)
connects-append (next_on_message xs ∷ es) fs = connects-append es fs

rank-connecting : (s : ConnectStatus) → is_connecting s ≡ true → rank s ≡ 0
rank-connecting connecting h = refl
rank-connecting connected h = cc

connects-send_if_any : (b : Buffer) → connects (send_if_any b) ≡ 0
connects-send_if_any b = elim (Bool-cases (readable_bytes b == 0)) [
  | inl e ↦ rw e refl
  | inr e ↦ rw e refl
]

connects-pass_on :
    {S : Type 0} (o : OpenSsl S) (fuel : S → ℕ) (b : Buffer) → connects (pass_on o fuel b) ≡ 0
connects-pass_on o fuel b = elim (Bool-cases (readable_bytes b == 0)) [
  | inl e ↦ rw e refl
  | inr e ↦ rw e refl
]

module _ {S : Type 0} (o : OpenSsl S) (fuel : S → ℕ) where
  decrypt-status :
      (h : SslHandler S) (input : List ℕ) (y : Status × SslHandler S × List ℕ)
      → decrypt o fuel h input ≡ some (ok y)
      → y.1.status ≡ h.status
  unfolding decrypt
  decrypt-status h input y = elim (run-cases (some (grow_for (length input) h.decrypt_data))) [
    | inl (out, g) ↦ elim (Bool-cases ((o.bio_write h.ssl input).0 == 0)) [
      | inl z ↦ rw (g, z) (λ e. ap (λ y. y.1.status) (sym (run-injective e)))
      | inr t ↦ elim (run-cases (ssl_read o fuel (o.bio_write h.ssl input).1 out)) [
        | inl (r, d) ↦ rw (g, t, d) (λ e. ap (λ y. y.1.status) (sym (run-injective e)))
        | inr (inl d) ↦ rw (g, t, d) run-none
        | inr (inr (f, d)) ↦ rw (g, t, d) run-err
      ]
    ]
    | inr (inl g) ↦ rw g run-none
    | inr (inr (f, g)) ↦ rw g run-err
  ]

  flush-status :
      (h : SslHandler S) (y : SslHandler S × Buffer)
      → flush o fuel h ≡ some (ok y)
      → y.0.status ≡ h.status
  flush-status h y = elim (run-cases (bio_read o fuel h.ssl (create initial_size))) [
    | inl (r, d) ↦ rw d (λ e. ap (λ y. y.0.status) (sym (run-injective e)))
    | inr (inl d) ↦ rw d run-none
    | inr (inr (f, d)) ↦ rw d run-err
  ]

  after_decrypt-connects :
      (status : Status) (h : SslHandler S) (y : SslHandler S × List Effect × Bool)
      → after_decrypt o fuel status h ≡ some (ok y)
      → connects y.1 + rank h.status ≡ rank y.0.status
  unfolding after_decrypt
  after_decrypt-connects ssl_ok h y = λ e.
      subst (λ y. connects y.1 + rank h.status ≡ rank y.0.status) (run-injective e) (omega arith)
  after_decrypt-connects ssl_close h y = λ e.
      subst (λ y. connects y.1 + rank h.status ≡ rank y.0.status) (run-injective e) (omega arith)
  after_decrypt-connects ssl_fail h y = λ e.
      subst (λ y. connects y.1 + rank h.status ≡ rank y.0.status) (run-injective e) (omega arith)
  after_decrypt-connects ssl_want h y = elim (Bool-cases (o.is_init_finished h.ssl)) [
    | inl finished ↦ elim (Bool-cases (is_connecting h.status)) [
      | inl c ↦
          rw (finished, c)
            (λ e.
              subst (λ y. connects y.1 + rank h.status ≡ rank y.0.status) (run-injective e)
                (omega (arith, rank-connecting h.status c)))
      | inr c ↦
          rw (finished, c)
            (λ e.
              subst (λ y. connects y.1 + rank h.status ≡ rank y.0.status) (run-injective e)
                (omega arith))
    ]
    | inr unfinished ↦ elim (run-cases (flush o fuel h)) [
      | inl (r, d) ↦
          rw (unfinished, d)
            (λ e.
              subst (λ y. connects y.1 + rank h.status ≡ rank y.0.status) (run-injective e)
                (omega (arith, connects-send_if_any r.1, ap rank (flush-status h r d))))
      | inr (inl d) ↦ rw (unfinished, d) run-none
      | inr (inr (f, d)) ↦ rw (unfinished, d) run-err
    ]
  ]

  message_loop-connects :
      (turns : ℕ) (h : SslHandler S) (input : List ℕ) (y : SslHandler S × List Effect)
      → message_loop o fuel turns h input ≡ some (ok y)
      → connects y.1 + rank h.status ≡ rank y.0.status
  unfolding message_loop
  message_loop-connects zero h input y = run-none
  message_loop-connects (suc turns) h input y = elim (Bool-cases (length input == 0)) [
    | inl empty ↦ rw empty (λ e.
        subst (λ y. connects y.1 + rank h.status ≡ rank y.0.status) (run-injective e)
          (omega (arith, connects-pass_on o fuel h.decrypt_data)))
    | inr more ↦ elim (run-cases (decrypt o fuel h input)) [
      | inr (inl d) ↦ rw (more, d) run-none
      | inr (inr (f, d)) ↦ rw (more, d) run-err
      | inl (d, decrypted) ↦
          let same = decrypt-status h input d decrypted in
          elim (run-cases (after_decrypt o fuel d.0 d.1)) [
            | inr (inl a) ↦ rw (more, decrypted, a) run-none
            | inr (inr (f, a)) ↦ rw (more, decrypted, a) run-err
            | inl (a, handled) ↦
                let first = after_decrypt-connects d.0 d.1 a handled in
                elim (Bool-cases a.2) [
                  | inr stop ↦
                      rw (more, decrypted, handled, stop)
                        (λ e.
                          subst (λ y. connects y.1 + rank h.status ≡ rank y.0.status)
                            (run-injective e) (omega (arith, first, ap rank same)))
                  | inl goes_on ↦ elim (run-cases (message_loop o fuel turns a.0 d.2)) [
                    | inr (inl l) ↦ rw (more, decrypted, handled, goes_on, l) run-none
                    | inr (inr (f, l)) ↦ rw (more, decrypted, handled, goes_on, l) run-err
                    | inl (r, looped) ↦
                        rw (more, decrypted, handled, goes_on, looped)
                          (λ e.
                            subst (λ y. connects y.1 + rank h.status ≡ rank y.0.status)
                              (run-injective e)
                              (omega (
                                arith,
                                first,
                                ap rank same,
                                message_loop-connects turns a.0 d.2 r looped,
                                connects-append a.1 r.1,
                              )))
                  ]
                ]
          ]
    ]
  ]

  -- Over any messages that are handled, onConnection of the next handler is called once if the state of
  -- the connection went from connecting to connected, and not at all otherwise; it never goes back.
  pub told_once :
      (messages : List (List ℕ × ℕ)) (h : SslHandler S) (y : SslHandler S × List Effect)
      → run o fuel h messages ≡ some (ok y)
      → connects y.1 + rank h.status ≡ rank y.0.status
  unfolding run on_message
  told_once [] h y = λ e.
      subst (λ y. connects y.1 + rank h.status ≡ rank y.0.status) (run-injective e) (omega arith)
  told_once ((input, n) ∷ messages) h y =
      elim (run-cases (message_loop o fuel (suc (length input)) h input)) [
        | inr (inl l) ↦ rw l run-none
        | inr (inr (f, l)) ↦ rw l run-err
        | inl (m, looped) ↦
            let next = record m.0 { decrypt_data = retrieve m.0.decrypt_data n } in
            elim (run-cases (run o fuel next messages)) [
              | inr (inl l) ↦ rw (looped, l) run-none
              | inr (inr (f, l)) ↦ rw (looped, l) run-err
              | inl (r, done) ↦
                  rw (looped, done)
                    (λ e.
                      subst (λ y. connects y.1 + rank h.status ≡ rank y.0.status) (run-injective e)
                        (omega (
                          arith,
                          message_loop-connects (suc (length input)) h input m looped,
                          told_once messages next r done,
                          connects-append m.1 r.1,
                        )))
            ]
      ]
