-- ===== src/Logging/Appender/Order.antt =====
-- sevent/base/LogAsynAppender.cpp: the order of the lines.
use sevent.Base.{
  ℕ, ◌-◌, ◌≤◌, ◌<◌, ◌≡◌, ◌⊎◌, refl, sym, ◌∙◌, ap, inl, inr, Bool, Bool-cases, true, false, not,
  ◌&&◌, List, [], ◌∷◌, ◌++◌, ltb, lt→ltb, ◌==◌, length, length-append, arith, append-nil,
  append_assoc,
}
use sevent.Logging.{FixedBuffer, remain}
use sevent.Logging as L
use sevent.Logging.Appender.{LogAsynAppender, append, collect, text_of, write_out, taken_back}

-- What was put in and not taken out yet.
abbrev pub waiting : LogAsynAppender → List ℕ
waiting a = text_of a.buffers_holder ++ a.cur_buffer.written

text_of-append :
    (xs : List FixedBuffer) (b : FixedBuffer) → text_of (xs ++ b ∷ []) ≡ text_of xs ++ b.written
text_of-append [] b = append-nil b.written
text_of-append (x ∷ xs) b =
    ap (λ l. x.written ++ l) (text_of-append xs b)
    ∙ sym (append_assoc x.written (text_of xs) b.written)

-- The current buffer has its size, and a full buffer waits wherever `nextBuffer` is used up.
abbrev pub IsSound : ℕ → LogAsynAppender → Type 0
IsSound size a = (a.cur_buffer.size ≡ size) × ((a.has_next ≡ true) ⊎ (0 < length a.buffers_holder))

append_lem :
    (size : ℕ) (a : LogAsynAppender) (log : List ℕ)
    → IsSound size a
    → length log < size
    → IsSound size (append a log) × (waiting (append a log) ≡ waiting a ++ log)
unfolding append L.append
append_lem size a log (s, n) h = elim (Bool-cases (ltb (length log) (remain a.cur_buffer))) [
  | inl room ↦
      rw room ((s, n), sym (append_assoc (text_of a.buffers_holder) a.cur_buffer.written log))
  | inr full ↦
      let fits : ltb (length log) (a.cur_buffer.size - 0) ≡ true =
        lt→ltb (length log) (a.cur_buffer.size - 0) (omega (arith, s, h)) in
      rw (full, fits)
        (
          (s, inr (omega (arith, length-append a.buffers_holder (a.cur_buffer ∷ [])))),
          ap (λ l. l ++ log) (text_of-append a.buffers_holder a.cur_buffer),
        )
]

-- The thread finds the buffers that it takes back, since it wrote as many at least.
collect_lem :
    (size : ℕ) (a : LogAsynAppender)
    → IsSound size a
    → IsSound size (collect a).0
      × (text_of (collect a).1 ++ waiting (collect a).0 ≡ waiting a)
      × (((collect a).1 ≡ []) ⊎ (taken_back a ≤ length (collect a).1))
unfolding collect
collect_lem size a (s, n) =
    elim (Bool-cases ((length a.buffers_holder == 0) && (length a.cur_buffer.written == 0))) [
      | inl nothing ↦ rw nothing ((s, n), refl, inl refl)
      | inr some_text ↦ rw some_text (
        (s, inl refl),
        append-nil (text_of (a.buffers_holder ++ a.cur_buffer ∷ []))
            ∙ text_of-append a.buffers_holder a.cur_buffer,
        inr (ground (arith, n, length-append a.buffers_holder (a.cur_buffer ∷ []))),
      )
    ]

-- A log line is appended by some thread, or the writing thread has a turn.
pub data Step : Type 0 where
  appends : List ℕ → Step
  collects : Step

abbrev pub all_short : ℕ → List Step → Bool
all_short size [] = true
all_short size (appends log ∷ steps) = ltb (length log) size && all_short size steps
all_short size (collects ∷ steps) = all_short size steps

abbrev pub logged : List Step → List ℕ
logged [] = []
logged (appends log ∷ steps) = log ++ logged steps
logged (collects ∷ steps) = logged steps

module _ (notice : ℕ → List ℕ) (limit : ℕ) where
  -- What is written over some steps, and what the appender is then.
  abbrev pub run : LogAsynAppender → List Step → LogAsynAppender × List ℕ
  run a [] = (a, [])
  run a (appends log ∷ steps) = run (append a log) steps
  run a (collects ∷ steps) =
      let (a', text) = run (collect a).0 steps in (a', write_out notice limit (collect a).1 ++ text)

  -- No turn finds more buffers than the limit.
  abbrev pub within_limit : LogAsynAppender → List Step → Bool
  within_limit a [] = true
  within_limit a (appends log ∷ steps) = within_limit (append a log) steps
  within_limit a (collects ∷ steps) =
      not (ltb limit (length (collect a).1)) && within_limit (collect a).0 steps

  -- Over any interleaving of log lines and turns of the writing thread, if each line is shorter than a
  -- buffer and no turn finds more buffers than the limit, what was written and then what still waits
  -- is what waited at first and then the lines, in their order.
  pub run_in_order :
      (size : ℕ) (steps : List Step) (a : LogAsynAppender)
      → IsSound size a
      → all_short size steps ≡ true
      → within_limit a steps ≡ true
      → (run a steps).1 ++ waiting (run a steps).0 ≡ waiting a ++ logged steps
  run_in_order size [] a s h w = sym (append-nil (waiting a))
  run_in_order size (appends log ∷ steps) a s h w =
      let (sound, added) = append_lem size a log s (ground (arith, h)) in
      run_in_order size steps (append a log) sound (ground (arith, h)) w
      ∙ ap (λ l. l ++ logged steps) added
      ∙ append_assoc (waiting a) log (logged steps)
  run_in_order size (collects ∷ steps) a s h w =
      let (sound, kept, _) = collect_lem size a s in
      let below : ltb limit (length (collect a).1) ≡ false = ground (arith, w) in
      let rest = run_in_order size steps (collect a).0 sound h (ground (arith, w)) in
      let text = (run (collect a).0 steps).1 in
      let left = waiting (run (collect a).0 steps).0 in
      rw below (
        append_assoc (text_of (collect a).1) text left
        ∙ ap (λ l. text_of (collect a).1 ++ l) rest
        ∙ sym (append_assoc (text_of (collect a).1) (waiting (collect a).0) (logged steps))
        ∙ ap (λ l. l ++ logged steps) kept)
