-- ===== src/TcpConnection/HighWater.antt =====
-- sevent/net/TcpConnection.cpp: when the high-water mark is reported.
use sevent.Base.{
  ℕ, ◌+◌, ◌<◌, ◌^◌, ◌≡◌, sym, ap, subst, ◌∙◌, inl, inr, ◌&&◌, List, [], ◌∷◌, ◌++◌, arith, length,
  ok, ltb, leb, if◌then◌else◌, ok-injective, drop, length-drop, length-append, append-nil,
}
use sevent.Buffer.{readable_bytes}
use sevent.Buffer.Contents.{contents, length-contents}
use sevent.TcpConnection.{Conn, WriteAnswer, wrote, failed, Effect, Task}
use sevent.TcpConnection.Sending.{send_in_loop, attempt, try_write, high_water}
use sevent.TcpConnection.Outcomes.{IsGood, Fits, kept, kept_effects, send_in_loop-outcome}

-- The high-water marks that a call reports.
abbrev pub marks : List Effect → List ℕ
marks [] = []
marks (Effect.queue_in_loop (Task.on_high_water_mark n) ∷ es) = n ∷ marks es
marks (_ ∷ es) = marks es

abbrev pub crossing : Conn → Conn → List ℕ
crossing c c' =
    if ltb (readable_bytes c.output_buf) c.high_water_mark
      && (leb c.high_water_mark (readable_bytes c'.output_buf) && c.has_handler)
    then readable_bytes c'.output_buf ∷ []
    else []

attempt-marks :
    (c : Conn) (xs : List ℕ) (answer : WriteAnswer) (es : List Effect)
    → marks ((attempt c xs answer).done ++ es) ≡ marks es
unfolding attempt try_write
attempt-marks c xs (wrote n) es = ground arith
attempt-marks c xs (failed e) es = ground arith

kept-marks :
    (c c' : Conn) (n : ℕ)
    → readable_bytes c'.output_buf ≡ readable_bytes c.output_buf + n
    → readable_bytes c.output_buf + n < 2 ^ 64
    → marks (kept_effects c n) ≡ crossing c c'
unfolding high_water
kept-marks c c' n e small = ground arith

crossing_self : (c : Conn) → crossing c c ≡ []
crossing_self c = ground arith

marks_result :
    {c' : Conn} {es : List Effect} (c : Conn) (r : Conn × List Effect)
    → marks r.1 ≡ crossing c r.0
    → ok r ≡ ok (c', es)
    → marks es ≡ crossing c c'
marks_result c r k h =
    subst (λ (t : Conn × List Effect). marks t.1 ≡ crossing c t.0) (ok-injective h) k

-- A send reports the high-water mark exactly when the bytes that wait reach the mark from below, once,
-- with their number.
pub send-marks :
    {c c' : Conn} {es : List Effect} (xs : List ℕ) (answer : WriteAnswer)
    → IsGood c
    → Fits (length xs) c
    → send_in_loop c xs answer ≡ ok (c', es)
    → marks es ≡ crossing c c'
send-marks {c} {c'} {es} xs answer g f h = elim (send_in_loop-outcome xs answer g f) [
  | inl (gone, done) ↦ marks_result c (c, []) (sym (crossing_self c)) (sym done ∙ h)
  | inr (inl (here, all, done)) ↦
      marks_result c (c, (attempt c xs answer).done)
        (rw (← append-nil (attempt c xs answer).done) (attempt-marks c xs answer [])
          ∙ sym (crossing_self c))
        (sym done ∙ h)
  | inr (inr (buf, here, left, a, done)) ↦
      let n = length (drop (attempt c xs answer).n xs) in
      let size : readable_bytes buf ≡ readable_bytes c.output_buf + n = omega (
        arith,
        length-contents a.valid,
        length-contents g.out_valid,
        ap length a.added,
        length-append (contents c.output_buf) (drop (attempt c xs answer).n xs),
      ) in
      marks_result c (kept c buf, (attempt c xs answer).done ++ kept_effects c n)
        (attempt-marks c xs answer (kept_effects c n)
          ∙ kept-marks c (kept c buf) n size
              (omega (arith, length-drop (attempt c xs answer).n xs)))
        (sym done ∙ h)
]
