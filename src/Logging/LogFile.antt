-- ===== src/Logging/LogFile.antt =====
-- sevent/base/LogAsynAppender.cpp, `LogFile`: what reaches the file, and when it is rolled.
use sevent.Base.{
  ℕ, zero, suc, ◌+◌, ◌-◌, ◌*◌, ◌/◌, ◌<◌, ◌≡◌, ◌∙◌, ap, Bool, not, ◌&&◌, ◌||◌, List, [], ◌∷◌, ◌++◌,
  ltb, leb, ◌==◌, length, take, drop, if◌then◌else◌, arith, length-drop, take-append-drop,
  append-nil, take-all,
}

pub record LogFile : Type 0 where
  pub roll_size : ℕ
  pub check : ℕ
  pub count : ℕ
  pub written_bytes : ℕ
  pub last_roll : ℕ
  pub today : ℕ
  pub content : List ℕ

abbrev pub day_second_unit : ℕ
day_second_unit = 24 * 3600

-- `rollFile` at a time, if `fopen` succeeds: a new file of its own name.
unfoldable pub roll_file : LogFile → ℕ → Bool → LogFile
roll_file f now is_open = if leb now f.last_roll || not is_open then f else record f {
  written_bytes = 0;
  last_roll = now;
  today = now / day_second_unit * day_second_unit;
  content = [];
}

-- The loop over a short `fwrite`: each time from `log + n`, whose bytes are `behind`, with what the
-- calls of `fwrite` answer.
unfoldable pub retry_loop : List ℕ → ℕ → List ℕ → List ℕ
retry_loop behind zero answers = []
retry_loop behind (suc remain) [] = []
retry_loop behind (suc remain) (zero ∷ answers) = []
retry_loop behind (suc remain) (suc tmp ∷ answers) =
    take (suc tmp) behind ++ retry_loop behind (suc remain - suc tmp) answers

-- The bytes that `writeInternal` puts into the file.
unfoldable pub put_bytes : List ℕ → ℕ → List ℕ → List ℕ
unfolding retry_loop
put_bytes log n answers = take n log ++ retry_loop (drop n log) (length log - n) answers

-- The test for a roll, every `check` writes.
abbrev pub roll_daily : LogFile → ℕ → Bool → LogFile
roll_daily f now is_open =
    let f' = record f { count = if leb f.check (suc f.count) then 0 else suc f.count } in
    if leb f.check (suc f.count) && not (f.today == now / day_second_unit * day_second_unit)
    then roll_file f' now is_open
    else f'

unfoldable pub write_internal : LogFile → List ℕ → ℕ → List ℕ → ℕ → Bool → LogFile
unfolding put_bytes roll_file
write_internal f log n answers now is_open =
    let f' = record f {
      content = f.content ++ put_bytes log n answers;
      written_bytes = f.written_bytes + length log;
    } in
    if ltb f.roll_size f'.written_bytes then roll_file f' now is_open else roll_daily f' now is_open

retry_once : (behind : List ℕ) (m : ℕ) → 0 < m → retry_loop behind m (m ∷ []) ≡ take m behind
unfolding retry_loop
retry_once behind zero h = absurd (omega arith)
retry_once behind (suc m) h =
    let e : suc m - suc m ≡ 0 = omega arith in rw e (append-nil (take (suc m) behind))

retry_twice :
    (behind : List ℕ) (m k : ℕ)
    → 0 < k
    → k < m
    → retry_loop behind m (k ∷ (m - k) ∷ []) ≡ take k behind ++ take (m - k) behind
unfolding retry_loop
retry_twice behind m zero h l = absurd (omega arith)
retry_twice behind zero (suc k) h l = absurd (omega arith)
retry_twice behind (suc m) (suc k) h l =
    ap (λ t. take (suc k) behind ++ t) (retry_once behind (suc m - suc k) (omega arith))

-- A line that `fwrite` takes in two calls reaches the file. In three calls, the third one repeats the
-- bytes from the start of the second one.
pub put_bytes_lem :
    (log : List ℕ) (n k : ℕ)
    → n < length log
    → 0 < k
    → k < length log - n
    → (put_bytes log n ((length log - n) ∷ []) ≡ log)
      × (put_bytes log n (k ∷ (length log - n - k) ∷ [])
          ≡ take n log ++ (take k (drop n log) ++ take (length log - n - k) (drop n log)))
unfolding put_bytes
put_bytes_lem log n k h p q =
    let all : take (length log - n) (drop n log) ≡ drop n log =
      take-all (length log - n) (drop n log) (omega (arith, length-drop n log)) in
    (
      ap (λ t. take n log ++ t) (retry_once (drop n log) (length log - n) (omega (arith, h)) ∙ all)
          ∙ take-append-drop n log,
      ap (λ t. take n log ++ t) (retry_twice (drop n log) (length log - n) k p q),
    )
