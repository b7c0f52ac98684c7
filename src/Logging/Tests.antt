-- ===== src/Logging/Tests.antt =====
-- Runs of sevent/base/LogStream.cpp, and the theorems at them.
use sevent.Base.{ℕ, ◌≡◌, ◌<◌, refl, inl, true, List, [], ◌∷◌, ◌++◌, arith, length}
use sevent.Base.Int.{pos, negsuc}
use sevent.Logging.{convert, convert_loop}
use sevent.Logging.Appender.{LogAsynAppender, fresh}
use sevent.Logging.Appender.Order.{
  Step, appends, collects, run, waiting, within_limit, logged, run_in_order,
}
use sevent.Logging.LogFile.{put_bytes, put_bytes_lem}
use sevent.Logging.Fixed.{Write, write_all, write_all-fits}

-- -120
convert_run : convert (negsuc 119) ≡ 45 ∷ 49 ∷ 50 ∷ 48 ∷ []
unfolding convert convert_loop
convert_run = refl

write_all-fits_example :
    length
      (write_all
        (record { size = 50; written = [] })
        (Write.writes_integer (pos 7) ∷ Write.writes_text (65 ∷ 66 ∷ []) ∷ [])).written
    < 50
write_all-fits_example =
    write_all-fits (Write.writes_integer (pos 7) ∷ Write.writes_text (65 ∷ 66 ∷ []) ∷ [])
      (record { size = 50; written = [] }) (omega arith) refl

-- Three lines of two bytes through buffers of five, with a turn of the writing thread between.
abbrev steps : List Step
steps = appends (1 ∷ 2 ∷ []) ∷ appends (3 ∷ 4 ∷ []) ∷ collects ∷ appends (5 ∷ 6 ∷ []) ∷ []

abbrev appender : LogAsynAppender
appender = record { cur_buffer = fresh 5; has_next = true; buffers_holder = [] }

abbrev dropped : ℕ → List ℕ
dropped n = 100 ∷ n ∷ []

steps_within : within_limit dropped 4 appender steps ≡ true
unfolding sevent.Logging.Appender.collect sevent.Logging.Appender.append sevent.Logging.append
steps_within = refl

run_in_order_example :
    (run dropped 4 appender steps).1 ++ waiting (run dropped 4 appender steps).0
    ≡ waiting appender ++ logged steps
run_in_order_example = run_in_order dropped 4 5 steps appender (refl, inl refl) refl steps_within

put_bytes_example :
    (put_bytes (1 ∷ 2 ∷ 3 ∷ 4 ∷ []) 1 (3 ∷ []) ≡ 1 ∷ 2 ∷ 3 ∷ 4 ∷ [])
    × (put_bytes (1 ∷ 2 ∷ 3 ∷ 4 ∷ []) 1 (1 ∷ 2 ∷ []) ≡ 1 ∷ 2 ∷ 2 ∷ 3 ∷ [])
put_bytes_example = put_bytes_lem (1 ∷ 2 ∷ 3 ∷ 4 ∷ []) 1 1 (omega arith) (omega arith) (omega arith)
