-- ===== src/TcpConnection/Outcomes.antt =====
-- sevent/net/TcpConnection.cpp: the buffers of a connection, and what each function that moves bytes
-- leaves behind, branch by branch.
use sevent.Base.{
  ℕ, ◌+◌, ◌≤◌, ◌≡◌, refl, ◌⊎◌, inl, inr, Bool, true, false, not, ◌&&◌, List, [], ◌∷◌, ◌++◌, arith,
  length, drop, length-drop, ok, ltb, if◌then◌else◌, Bool-cases,
}
use sevent.Base.Memory.{max_size}
use sevent.Buffer.{Buffer, prepends}
use sevent.Buffer.Contents.{IsValid}
use sevent.Buffer.Appending.{Appended, append-Appended}
use sevent.Channel.{enable_write_event}
use sevent.TcpConnection.{
  Conn, disconnected, same_state, WriteAnswer, Effect, update_channel, update,
}
use sevent.TcpConnection.Sending.{Attempt, attempt, high_water, want_write, keep_rest, send_in_loop}

-- Both buffers are valid, and nobody prepended to them.
pub record IsGood (c : Conn) : Type 0 where
  pub out_valid : IsValid c.output_buf
  pub out_front : prepends ≤ c.output_buf.read_index
  pub in_valid : IsValid c.input_buf
  pub in_front : prepends ≤ c.input_buf.read_index

-- Neither buffer has to exceed `max_size` for `n` more bytes.
abbrev pub Fits : ℕ → Conn → Type 0
Fits n c = (length c.output_buf.bytes + n ≤ max_size) × (length c.input_buf.bytes + n ≤ max_size)

-- What a connection is with `buf` waiting and the write event registered.
abbrev pub kept : Conn → Buffer → Conn
kept c buf = record c { output_buf = buf; events = enable_write_event c.events }

abbrev pub kept_effects : Conn → ℕ → List Effect
kept_effects c remain =
    high_water c remain
    ++ (if c.events.write then [] else update_channel (enable_write_event c.events) ∷ [])

pub want_write_lem :
    (c : Conn) (buf : Buffer)
    → want_write (record c { output_buf = buf }) ≡ (
      kept c buf,
      if c.events.write then [] else update_channel (enable_write_event c.events) ∷ [],
    )
unfolding want_write update
want_write_lem c buf = ground arith

keep_rest_lem :
    {c : Conn} (xs : List ℕ)
    → IsGood c
    → Fits (length xs) c
    → (buf : Buffer) × Appended c.output_buf xs buf
      × (keep_rest c xs ≡ ok (kept c buf, kept_effects c (length xs)))
unfolding keep_rest
keep_rest_lem {c} xs g fits =
    let (buf, done, a) =
      append-Appended {b = c.output_buf} xs g.out_valid (inr (omega arith))
        (omega (arith, g.out_valid.within)) in
    (buf, a, rw done (rw (want_write_lem c buf) refl))

-- Whether a send keeps what remains.
abbrev pub keeps : Attempt → Bool
keeps a = not a.is_err && ltb 0 a.remain

-- The three ways that `sendInLoop` ends.
abbrev pub SendOutcome : Conn → List ℕ → WriteAnswer → Type 0
SendOutcome c xs answer =
    let a = attempt c xs answer in
    ((same_state c.state disconnected ≡ true) × (send_in_loop c xs answer ≡ ok (c, [])))
    ⊎ (((same_state c.state disconnected ≡ false)
          × (keeps a ≡ false)
          × (send_in_loop c xs answer ≡ ok (c, a.done)))
        ⊎ ((buf : Buffer) × (same_state c.state disconnected ≡ false)
            × (keeps a ≡ true)
            × Appended c.output_buf (drop a.n xs) buf
            × (send_in_loop c xs answer
                ≡ ok (kept c buf, a.done ++ kept_effects c (length (drop a.n xs))))))

pub send_in_loop-outcome :
    {c : Conn} (xs : List ℕ) (answer : WriteAnswer)
    → IsGood c
    → Fits (length xs) c
    → SendOutcome c xs answer
unfolding send_in_loop
send_in_loop-outcome {c} xs answer g fits = elim (Bool-cases (same_state c.state disconnected)) [
  | inl gone ↦ inl (gone, rw gone refl)
  | inr here ↦ elim (Bool-cases (keeps (attempt c xs answer))) [
    | inr all ↦ inr (inl (here, all, rw (here, all) refl))
    | inl some_left ↦
        let n = (attempt c xs answer).n in
        let (buf, a, done) = keep_rest_lem (drop n xs) g (omega (arith, length-drop n xs)) in
        inr (inr (buf, here, some_left, a, rw (here, some_left, done) refl))
  ]
]
