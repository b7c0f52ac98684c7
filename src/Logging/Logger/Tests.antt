-- ===== src/Logging/Logger/Tests.antt =====
-- Runs of sevent/base/Logger.cpp, and the theorems at them.
use sevent.Base.{ℕ, ◌≡◌, refl, false, List, [], ◌∷◌, ◌++◌, replicate, arith}
use sevent.Base.Int.{ℤ, pos}
use sevent.Logging.Fixed.{writes_text}
use sevent.Logging.Logger.{
  Level, LogEvent, create_event, before_msg_to_stream, after_msg_to_stream, appends, flushes,
  aborts, log,
}
use sevent.Logging.Logger.Line.{text_of, log-whole}

abbrev no_text : ℤ → List ℕ
no_text err = []

-- The event of the line 7 of "a.c", in the thread "1 ".
abbrev event : Level → LogEvent
event level = record {
  file = 97 ∷ 46 ∷ 99 ∷ [];
  line = pos 7;
  level = level;
  err_num = pos 0;
  time_text = replicate 17 48;
  thread_id = 49 ∷ 32 ∷ [];
}

-- "b/a.c"
created :
    create_event
      (98 ∷ 47 ∷ 97 ∷ 46 ∷ 99 ∷ [])
      (pos 7)
      Level.warn
      false
      (pos 11)
      (replicate 17 48)
      (49 ∷ 32 ∷ [])
    ≡ event Level.warn
unfolding sevent.Logging.Logger.create_event sevent.Logging.Logger.behind_slash
created = refl

log-whole_example :
    log false no_text Level.info false (event Level.fatal) (writes_text (104 ∷ []) ∷ [])
    ≡ appends (
        text_of (
          before_msg_to_stream false no_text (event Level.fatal)
          ++ (writes_text (104 ∷ []) ∷ after_msg_to_stream (event Level.fatal))))
      ∷ flushes
      ∷ aborts
      ∷ []
unfolding sevent.Logging.Logger.before_msg_to_stream sevent.Logging.Logger.after_msg_to_stream
    sevent.Logging.convert sevent.Logging.convert_loop
log-whole_example =
    log-whole false no_text Level.info false (event Level.fatal) (writes_text (104 ∷ []) ∷ []) refl
      (omega arith)
