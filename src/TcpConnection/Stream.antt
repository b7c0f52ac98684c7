-- ===== src/TcpConnection/Stream.antt =====
-- sevent/net/TcpConnection.cpp: the bytes that the kernel took and the bytes that wait.
use sevent.Base.{
  ℕ, ◌+◌, ◌-◌, ◌≡◌, refl, sym, ap, ◌∙◌, inl, inr, Bool, true, false, not, ◌&&◌, List, [], ◌∷◌, ◌++◌,
  arith, length, drop, length-drop, ok, ◌==◌, if◌then◌else◌, Bool-cases, append-nil, append_assoc,
  drop-all, ==_iff, take-append-drop,
}
use sevent.Buffer.{Buffer, readable_bytes}
use sevent.Buffer.Contents.{IsValid, contents}
use sevent.Buffer.Reading.{contents-empty}
use sevent.TcpConnection.{Conn, disconnected, same_state, WriteAnswer, wrote, failed, Effect}
use sevent.TcpConnection.Sending.{attempt, try_write, completed, high_water, send_in_loop, deal_err}
use sevent.TcpConnection.Outcomes.{IsGood, Fits, kept, kept_effects, keeps, send_in_loop-outcome}
use sevent.TcpConnection.Steps.{Call, Answers}

-- The bytes that the kernel took.
abbrev pub sent_bytes : List Effect → List ℕ
sent_bytes [] = []
sent_bytes (Effect.sent xs ∷ es) = xs ++ sent_bytes es
sent_bytes (_ ∷ es) = sent_bytes es

abbrev pub waiting : Conn → List ℕ
waiting c = contents c.output_buf

pub sent_bytes-append :
    (es fs : List Effect) → sent_bytes (es ++ fs) ≡ sent_bytes es ++ sent_bytes fs
sent_bytes-append [] fs = refl
sent_bytes-append (Effect.sent xs ∷ es) fs =
    ap (◌++◌ xs) (sent_bytes-append es fs) ∙ sym (append_assoc xs (sent_bytes es) (sent_bytes fs))
sent_bytes-append (_ ∷ es) fs = sent_bytes-append es fs

-- The kernel says that the connection is broken.
abbrev pub is_broken : WriteAnswer → Bool
is_broken (wrote n) = false
is_broken (failed e) = deal_err e

-- What a call hands over for sending: all bytes of a send, whether they come as data or in a buffer,
-- except on a closed connection, and when the direct write fails with `EPIPE` or `ECONNRESET`: then the
-- code gives them up.
abbrev pub handed : Conn → List ℕ → WriteAnswer → List ℕ
handed c xs answer =
    if same_state c.state disconnected
    then []
    else if not c.events.write && ((readable_bytes c.output_buf == 0) && is_broken answer)
    then []
    else xs

abbrev pub accepted : Conn → Call → List ℕ
accepted c (Call.sends xs answer) = handed c xs answer
accepted c (Call.sends_buf buf answer) = handed c (contents buf) answer
accepted c _ = []

pub kept_effects-sent : (c : Conn) (n : ℕ) → sent_bytes (kept_effects c n) ≡ []
unfolding high_water
kept_effects-sent c n = ground arith

pub completed-sent : (c : Conn) (n : ℕ) → sent_bytes (completed c n) ≡ []
completed-sent c n = ground arith

pub waiting-empty :
    (c : Conn) → IsValid c.output_buf → (readable_bytes c.output_buf == 0) ≡ true → waiting c ≡ []
waiting-empty c v e =
    contents-empty c.output_buf (omega (arith, (==_iff (readable_bytes c.output_buf) 0).0 e))

abbrev is_direct : Conn → Bool
is_direct c = not c.events.write && (readable_bytes c.output_buf == 0)

is_direct-waiting : (c : Conn) → IsValid c.output_buf → is_direct c ≡ true → waiting c ≡ []
is_direct-waiting c v e = waiting-empty c v (ground arith)

-- What the direct write took, what waits and what remains are what waited and the new bytes.
attempt-stream :
    (c : Conn) (xs : List ℕ) (answer : WriteAnswer)
    → IsValid c.output_buf
    → sent_bytes (attempt c xs answer).done ++ (waiting c ++ drop (attempt c xs answer).n xs)
      ≡ waiting c ++ xs
unfolding attempt try_write
attempt-stream c xs (failed e) v = ground arith
attempt-stream c xs (wrote n) v =
    elim (Bool-cases (not c.events.write && (readable_bytes c.output_buf == 0))) [
      | inr busy ↦ rw busy refl
      | inl direct ↦
          rw (direct, completed-sent c (length xs - n), is_direct-waiting c v direct)
            (rw append-nil (take-append-drop n xs))
    ]

-- A send that keeps nothing has handed everything over, or lost it to a broken connection.
attempt-all :
    (c : Conn) (xs : List ℕ) (answer : WriteAnswer)
    → Answers (length xs) answer
    → keeps (attempt c xs answer) ≡ false
    → (not c.events.write && ((readable_bytes c.output_buf == 0) && is_broken answer)) ≡ false
    → drop (attempt c xs answer).n xs ≡ []
unfolding attempt try_write
attempt-all c xs (wrote n) h k whole = ground (arith, drop-all n xs, drop-all 0 xs)
attempt-all c xs (failed e) h k whole = ground (arith, drop-all 0 xs)

attempt-broken :
    (c : Conn) (xs : List ℕ) (answer : WriteAnswer)
    → (not c.events.write && ((readable_bytes c.output_buf == 0) && is_broken answer)) ≡ true
    → ((attempt c xs answer).done ≡ []) × (keeps (attempt c xs answer) ≡ false)
unfolding attempt try_write
attempt-broken c xs (wrote n) h = ground arith
attempt-broken c xs (failed e) h = ground arith

-- A send loses its bytes when the direct write finds the connection broken.
abbrev loses : Conn → WriteAnswer → Bool
loses c answer = not c.events.write && ((readable_bytes c.output_buf == 0) && is_broken answer)

module _ (c : Conn) (xs : List ℕ) (answer : WriteAnswer) (v : IsValid c.output_buf) where
  pub finished-stream :
      Answers (length xs) answer
      → same_state c.state disconnected ≡ false
      → keeps (attempt c xs answer) ≡ false
      → sent_bytes (attempt c xs answer).done ++ waiting c
        ≡ waiting c ++ accepted c (Call.sends xs answer)
  finished-stream h here all = elim (Bool-cases (loses c answer)) [
    | inl lost ↦ rw (here, lost, (attempt-broken c xs answer lost).0) (sym (append-nil (waiting c)))
    | inr whole ↦
        let none_left = attempt-all c xs answer h all whole in
        rw (here, whole)
          (ap (λ l. sent_bytes (attempt c xs answer).done ++ l)
              (sym (append-nil (waiting c)) ∙ ap (◌++◌ (waiting c)) (sym none_left))
            ∙ attempt-stream c xs answer v)
  ]

  pub kept-stream :
      (buf : Buffer)
      → same_state c.state disconnected ≡ false
      → keeps (attempt c xs answer) ≡ true
      → contents buf ≡ waiting c ++ drop (attempt c xs answer).n xs
      → sent_bytes (
            (attempt c xs answer).done ++ kept_effects c (length (drop (attempt c xs answer).n xs)))
          ++ contents buf
        ≡ waiting c ++ accepted c (Call.sends xs answer)
  kept-stream buf here left a = elim (Bool-cases (loses c answer)) [
    | inl lost ↦ let k = (attempt-broken c xs answer lost).1 in absurd (ground (arith, k, left))
    | inr whole ↦
        rw
          (
            here,
            whole,
            sent_bytes-append (attempt c xs answer).done
                (kept_effects c (length (drop (attempt c xs answer).n xs))),
            kept_effects-sent c (length (drop (attempt c xs answer).n xs)),
            append-nil,
            a,
          )
          (attempt-stream c xs answer v)
  ]

-- What every call owes: it returns, the buffers stay sound, and the bytes stay in order.
pub record Streams (n : ℕ) (c : Conn) (new : List ℕ) (c' : Conn) (es : List Effect) : Type 0 where
  pub good : IsGood c'
  pub fits : Fits n c'
  pub stream : sent_bytes es ++ waiting c' ≡ waiting c ++ new

pub send_in_loop-stream :
    {c : Conn} (n : ℕ) (xs : List ℕ) (answer : WriteAnswer)
    → IsGood c
    → Fits (length xs + n) c
    → Answers (length xs) answer
    → (c' : Conn) × (es : List Effect) × (send_in_loop c xs answer ≡ ok (c', es))
      × Streams n c (accepted c (Call.sends xs answer)) c' es
send_in_loop-stream {c} n xs answer g fits h =
    elim (send_in_loop-outcome xs answer g (omega arith)) [
      | inl (gone, done) ↦ (
        c,
        [],
        done,
        record { good = g; fits = omega arith; stream = rw gone (sym (append-nil (waiting c))) },
      )
      | inr (inl (here, all, done)) ↦ (
        c,
        (attempt c xs answer).done,
        done,
        record {
          good = g;
          fits = omega arith;
          stream = finished-stream c xs answer g.out_valid h here all;
        },
      )
      | inr (inr (buf, here, left, a, done)) ↦ (
        kept c buf,
        (attempt c xs answer).done ++ kept_effects c (length (drop (attempt c xs answer).n xs)),
        done,
        record {
          good = omega (arith, a.front_kept);
          fits = omega (arith, a.bounded, length-drop (attempt c xs answer).n xs);
          stream = kept-stream c xs answer g.out_valid buf here left a.added;
        },
      )
    ]
