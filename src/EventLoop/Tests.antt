-- ===== src/EventLoop/Tests.antt =====
-- Runs of sevent/net/EventLoop.cpp.
use sevent.Base.{◌++◌, ◌≡◌, refl, inl, inr, ◌↔◌, true, some, [], ◌∷◌, List}
use sevent.EventLoop.{
  Loop, Phase, Active, create_loop, wakeup, start_tasks, end_tasks, check_quit, handle_active,
  queue_in_loop,
}
use sevent.EventLoop.Steps.{
  Action, step, run, is_answer, has_wakeup, handle_next, run_next, wake_next,
}
use sevent.EventLoop.Wakeups.{run-wakes}
use sevent.EventLoop.Order.{IsBatched, waiting_tasks, run-order}

abbrev sleeping : Loop
sleeping = record create_loop { phase = Phase.polling }

-- Another thread queues task 7; the loop runs it, and in it queues task 8; another thread quits.
abbrev trace : List Action
trace =
    Action.pushes 7
    ∷ Action.wakes
    ∷ Action.poll_returns (Active.wakeup_channel ∷ [])
    ∷ Action.handles
    ∷ Action.starts_tasks
    ∷ Action.runs_task
    ∷ Action.queues 8
    ∷ Action.ends_tasks
    ∷ []

abbrev after_trace : Loop
after_trace = record sleeping { pending_tasks = 8 ∷ []; counter = 1 }

trace_returns : run sleeping trace ≡ some (after_trace, 7 ∷ [])
unfolding run step handle_next run_next wake_next queue_in_loop wakeup start_tasks end_tasks
    check_quit handle_active
trace_returns = refl

run-wakes_example :
    (is_answer 1 (Active.wakeup_channel ∷ []) ≡ true)
    × ((is_answer 1 [] ≡ true) ↔ (has_wakeup [] ≡ true))
run-wakes_example = run-wakes trace sleeping [] (refl, inl refl) refl trace_returns refl refl refl

run-order_example :
    IsBatched after_trace × (7 ∷ waiting_tasks after_trace ≡ waiting_tasks sleeping ++ 7 ∷ 8 ∷ [])
run-order_example = run-order trace sleeping (inr refl) trace_returns
