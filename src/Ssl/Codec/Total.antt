-- ===== src/Ssl/Codec/Total.antt =====
-- sevent/net/ssl/SslCodec.cpp: the loops of `onMessage` end.
use sevent.Base.{
  ℕ, zero, suc, ◌+◌, ◌<◌, ◌≡◌, ◌⊎◌, refl, sym, ap, ◌∙◌, Bool, Bool-cases, inl, inr, false, some,
  List, [], ◌∷◌, ◌==◌, length, length-append, length-drop, drop, arith, Result, ok, err, run-cases,
  run-injective, run-none, run-err, Returns, bind_run_total,
}
use sevent.Buffer.{Buffer, create, initial_size, retrieve, writable_bytes}
use sevent.Ssl.{
  OpenSsl, Status, ssl_ok, ssl_want, ssl_close, ssl_fail, SslHandler, drain, take_in, read_wbio,
  bio_read, ssl_read, decrypt, grow_for,
}
use sevent.Ssl.Drain.{Pending}
use sevent.Ssl.Codec.{Effect, flush, after_decrypt, message_loop, on_message, run, is_connecting}
use sevent.Ssl.Codec.Connecting.{connects, rank, told_once}

drain_total :
    {S R : Type 0} {read : S → ℕ → List ℕ × R × S} (p : Pending read) (fuel count : ℕ) (s : S)
    (b : Buffer)
    → length (p.pending s) < fuel
    → Returns (drain read fuel count s b)
unfolding drain
drain_total p zero count s b f = absurd (omega arith)
drain_total {read} p (suc fuel) count s b f =
    let xs = (read s (writable_bytes b)).0 in
    let s' = (read s (writable_bytes b)).2 in
    let size : length (p.pending s) ≡ length xs + length (p.pending s') =
      sym (ap length (p.in_order s (writable_bytes b))) ∙ length-append xs (p.pending s') in
    elim (Bool-cases (length xs == 0)) [
      | inl done ↦ rw done (_, refl)
      | inr more ↦
          let less : length (p.pending s') < fuel = ground (arith, size, f, more) in
          rw more (
            bind_run_total (some (take_in b xs)) (drain read fuel (count + length xs) s') (_, refl)
              (λ b' e. drain_total p fuel (count + length xs) s' b' less))
    ]

-- What a run that returns owes: the calls of onConnection are what the state went up by.
abbrev pub Told : {S : Type 0} → SslHandler S → Result (SslHandler S × List Effect) → Type 0
Told h (err fault) = Unit {0}
Told h (ok (h', es)) = connects es + rank h.status ≡ rank h'.status

told_lem :
    {S : Type 0} (o : OpenSsl S) (fuel : S → ℕ) (messages : List (List ℕ × ℕ)) (h : SslHandler S)
    (r : Result (SslHandler S × List Effect))
    → run o fuel h messages ≡ some r
    → Told h r
told_lem o fuel messages h (err fault) e = omega arith
told_lem o fuel messages h (ok (h', es)) e = told_once o fuel messages h (h', es) e

module _ {S : Type 0} (o : OpenSsl S) (p : Pending o.ssl_read) (q : Pending (read_wbio o))
    (fuel : S → ℕ) (enough : (s : S) → length (p.pending s) < fuel s)
    (enough' : (s : S) → length (q.pending s) < fuel s) where
  ssl_read_total : (s : S) (b : Buffer) → Returns (ssl_read o fuel s b)
  unfolding ssl_read
  ssl_read_total s b =
      bind_run_total (drain o.ssl_read (fuel s) 0 s b) _ (drain_total p (fuel s) 0 s b (enough s))
        (λ x e. (_, refl))

  flush_total : (h : SslHandler S) → Returns (flush o fuel h)
  unfolding bio_read
  flush_total h =
      bind_run_total (bio_read o fuel h.ssl (create initial_size)) _
        (bind_run_total (drain (read_wbio o) (fuel h.ssl) 0 h.ssl (create initial_size)) _
          (drain_total q (fuel h.ssl) 0 h.ssl (create initial_size) (enough' h.ssl))
          (λ x e. (_, refl)))
        (λ x e. (_, refl))

  decrypt_total : (h : SslHandler S) (input : List ℕ) → Returns (decrypt o fuel h input)
  unfolding decrypt
  decrypt_total h input =
      bind_run_total (some (grow_for (length input) h.decrypt_data)) _ (_, refl)
        (λ out e. elim (Bool-cases ((o.bio_write h.ssl input).0 == 0)) [
          | inl z ↦ rw z (_, refl)
          | inr t ↦ rw t (
              bind_run_total (ssl_read o fuel (o.bio_write h.ssl input).1 out) _
                (ssl_read_total (o.bio_write h.ssl input).1 out) (λ x e. (_, refl)))
        ])

  after_decrypt_total :
      (status : Status) (h : SslHandler S) → Returns (after_decrypt o fuel status h)
  unfolding after_decrypt
  after_decrypt_total ssl_ok h = (_, refl)
  after_decrypt_total ssl_close h = (_, refl)
  after_decrypt_total ssl_fail h = (_, refl)
  after_decrypt_total ssl_want h = elim (Bool-cases (o.is_init_finished h.ssl)) [
    | inr unfinished ↦
        rw unfinished (bind_run_total (flush o fuel h) _ (flush_total h) (λ x e. (_, refl)))
    | inl finished ↦ elim (Bool-cases (is_connecting h.status)) [
      | inl c ↦ rw (finished, c) (_, refl)
      | inr c ↦ rw (finished, c) (_, refl)
    ]
  ]

  -- A decrypt fails, which ends the loop, or takes a byte of the input.
  decrypt-shorter :
      (h : SslHandler S) (input : List ℕ) (y : Status × SslHandler S × List ℕ)
      → (length input == 0) ≡ false
      → decrypt o fuel h input ≡ some (ok y)
      → (y.0 ≡ ssl_fail) ⊎ (length y.2 < length input)
  unfolding decrypt
  decrypt-shorter h input y more =
      elim (run-cases (some (grow_for (length input) h.decrypt_data))) [
        | inl (out, g) ↦ elim (Bool-cases ((o.bio_write h.ssl input).0 == 0)) [
          | inl z ↦ rw (g, z) (λ e. inl (ap (λ y. y.0) (sym (run-injective e))))
          | inr t ↦ elim (run-cases (ssl_read o fuel (o.bio_write h.ssl input).1 out)) [
            | inl (r, d) ↦
                rw (g, t, d)
                  (λ e.
                    let n = (o.bio_write h.ssl input).0 in
                    let same : length y.2 ≡ length (drop n input) =
                      ap (λ y. length y.2) (sym (run-injective e)) in
                    inr (ground (arith, same, length-drop n input, t, more)))
            | inr (inl d) ↦ rw (g, t, d) run-none
            | inr (inr (f, d)) ↦ rw (g, t, d) run-err
          ]
        ]
        | inr (inl g) ↦ rw g run-none
        | inr (inr (f, g)) ↦ rw g run-err
      ]

  fail_stops :
      (status : Status) (h : SslHandler S) (a : SslHandler S × List Effect × Bool)
      → status ≡ ssl_fail
      → after_decrypt o fuel status h ≡ some (ok a)
      → a.2 ≡ false
  unfolding after_decrypt
  fail_stops status h a s = rw s (λ e. ap (λ y. y.2) (sym (run-injective e)))

  message_loop_total :
      (turns : ℕ) (h : SslHandler S) (input : List ℕ)
      → length input < turns
      → Returns (message_loop o fuel turns h input)
  unfolding message_loop
  message_loop_total zero h input f = absurd (omega arith)
  message_loop_total (suc turns) h input f = elim (Bool-cases (length input == 0)) [
    | inl empty ↦ rw empty (_, refl)
    | inr more ↦ rw more (
        bind_run_total (decrypt o fuel h input) _ (decrypt_total h input) (λ d e.
          bind_run_total (after_decrypt o fuel d.0 d.1) _ (after_decrypt_total d.0 d.1) (λ a e'.
            elim (Bool-cases a.2) [
              | inr stop ↦ rw stop (_, refl)
              | inl goes_on ↦ elim (decrypt-shorter h input d more e) [
                | inl fail ↦ absurd (ground (arith, goes_on, fail_stops d.0 d.1 a fail e'))
                | inr shorter ↦
                    let less : length d.2 < turns = omega arith in
                    rw goes_on (
                      bind_run_total (message_loop o fuel turns a.0 d.2) _
                        (message_loop_total turns a.0 d.2 less) (λ x e''. (_, refl)))
              ]
            ])))
  ]

  run_total : (messages : List (List ℕ × ℕ)) (h : SslHandler S) → Returns (run o fuel h messages)
  unfolding run on_message
  run_total [] h = (_, refl)
  run_total ((input, n) ∷ messages) h =
      bind_run_total (message_loop o fuel (suc (length input)) h input) _
        (message_loop_total (suc (length input)) h input (omega arith))
        (λ m e.
          let next = record m.0 { decrypt_data = retrieve m.0.decrypt_data n } in
          bind_run_total (run o fuel next messages) _ (run_total messages next) (λ x e'. (_, refl)))

  -- Where the fuel exceeds what OpenSSL has pending in each state, any messages are handled to their end:
  -- the run returns, with a fault or with a handler and its effects; and then onConnection of the next
  -- handler is called once if the state of the connection went from connecting to connected, and not at
  -- all otherwise; it never goes back.
  pub run-connects :
      (messages : List (List ℕ × ℕ)) (h : SslHandler S)
      → (r : Result (SslHandler S × List Effect)) × (run o fuel h messages ≡ some r) × Told h r
  run-connects messages h =
      let (r, e) = run_total messages h in (r, e, told_lem o fuel messages h r e)
