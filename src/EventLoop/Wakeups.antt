-- ===== src/EventLoop/Wakeups.antt =====
-- sevent/net/EventLoop.cpp: what may wait while a loop sleeps in `poll`.
use sevent.Base.{
  ℕ, ◌≡◌, subst, ◌↔◌, ◌⊎◌, Bool, true, false, ◌&&◌, ◌||◌, some, List, [], ◌∷◌, ◌++◌, arith,
  some-injective, bind_option-eq-some, length, ltb,
}
use sevent.EventLoop.{
  Active, Phase, Loop, wakeup, queue_in_loop, quit, start_tasks, check_quit, end_tasks,
  handle_active,
}
use sevent.EventLoop.Steps.{
  Action, step, run, is_polling, is_tasking_phase, is_starting, is_answer, has_wakeup, run_on,
  handle_next, run_next, wake_next,
}

-- A wakeup is on its way: the counter is not 0, or a thread is about to raise it.
abbrev pub is_woken : Loop → Bool
is_woken l = ltb 0 l.counter || ltb 0 l.owed

-- The phases that lead to `poll` without a look at the queue.
abbrev pub may_sleep : Phase → Bool
may_sleep (Phase.handling _) = false
may_sleep Phase.stopped = false
may_sleep _ = true

-- What the loop would leave behind if it slept now: a queued task, or `isQuit`.
abbrev pub has_work : Loop → Bool
has_work l =
    (may_sleep l.phase && ltb 0 (length l.pending_tasks)) || (is_polling l.phase && l.is_quit)

-- `isTasking` is set while the tasks run and only then, and a wakeup is on its way wherever the loop
-- would leave something behind.
abbrev pub IsAwake : Loop → Type 0
IsAwake l = (l.is_tasking ≡ is_tasking_phase l.phase) × ((has_work l ≡ false) ⊎ (is_woken l ≡ true))

-- The owner thread queues a task before it enters `loop`.
abbrev pub is_early : Loop → Action → Bool
is_early l (Action.queues _) = is_starting l.phase
is_early l _ = false

step-IsAwake :
    (l : Loop) (a : Action) {l' : Loop} {ran : List ℕ}
    → IsAwake l
    → is_early l a ≡ false
    → step l a ≡ some (l', ran)
    → IsAwake l'
unfolding step handle_next run_next wake_next queue_in_loop quit wakeup start_tasks end_tasks
    check_quit handle_active
step-IsAwake l Action.enters_loop (t, w) e h = ground arith
step-IsAwake l Action.handles (t, w) e h = ground arith
step-IsAwake l Action.starts_tasks (t, w) e h = ground arith
step-IsAwake l Action.runs_task (t, w) e h = ground arith
step-IsAwake l Action.ends_tasks (t, w) e h = ground arith
step-IsAwake l Action.quits (t, w) e h = ground arith
step-IsAwake l Action.sets_quit (t, w) e h = ground arith
step-IsAwake l Action.wakes (t, w) e h = ground arith
step-IsAwake l (Action.poll_returns active) (t, w) e h = ground arith
step-IsAwake l (Action.queues task) (t, w) e h = ground arith
step-IsAwake l (Action.pushes task) (t, w) e h = ground arith

step-starting :
    (l : Loop) (a : Action) {l' : Loop} {ran : List ℕ}
    → is_starting l.phase ≡ false
    → step l a ≡ some (l', ran)
    → is_starting l'.phase ≡ false
unfolding step handle_next run_next wake_next queue_in_loop quit wakeup start_tasks end_tasks
    check_quit handle_active
step-starting l a s h = ground arith

not_early : (l : Loop) (a : Action) → is_starting l.phase ≡ false → is_early l a ≡ false
not_early l a s = ground arith

-- Once the loop was entered, whatever its threads do in whatever order: `isTasking` is set while the
-- tasks run and only then, and a loop that polls, or polls next without a look at its queue, has a
-- wakeup on its way if a task is queued; so has a loop that polls after `quit`.
pub run-IsAwake :
    (actions : List Action) (l : Loop) {l' : Loop} {ran : List ℕ}
    → IsAwake l
    → is_starting l.phase ≡ false
    → run l actions ≡ some (l', ran)
    → IsAwake l'
unfolding run
run-IsAwake [] l w s h = subst (λ (t : Loop × List ℕ). IsAwake t.0) (some-injective h) w
run-IsAwake (a ∷ actions) l w s h =
    let ((l₁, now), stepped, more) =
      bind_option-eq-some (step l a) (run_on (λ l'. run l' actions)) h in
    let ((l₂, later), rest, done) =
      bind_option-eq-some (run l₁ actions) (λ (t : Loop × List ℕ). some (t.0, now ++ t.1)) more in
    subst (λ (t : Loop × List ℕ). IsAwake t.0) (some-injective done)
      (run-IsAwake actions l₁ (step-IsAwake l a w (not_early l a s) stepped)
        (step-starting l a s stepped) rest)

-- After any run from a state of an entered loop in which no wakeup is missing (`IsAwake`; a loop that
-- polls, or polls next without a look at its queue, has a wakeup on its way if a task is queued), which a
-- loop need not be that entered with tasks that its owner queued before: if a task is queued or `quit`
-- was called, and no other thread is between its change and its `wakeup`, then `poll` returns at once,
-- and reports the wakeup channel.
pub run-wakes :
    (actions : List Action) (l : Loop) (active : List Active) {l' : Loop} {ran : List ℕ}
    → IsAwake l
    → is_starting l.phase ≡ false
    → run l actions ≡ some (l', ran)
    → is_polling l'.phase ≡ true
    → has_work l' ≡ true
    → l'.owed ≡ 0
    → (is_answer l'.counter (Active.wakeup_channel ∷ []) ≡ true)
      × ((is_answer l'.counter active ≡ true) ↔ (has_wakeup active ≡ true))
run-wakes actions l active {l'} w s h polls work idle =
    let awake : IsAwake l' = run-IsAwake actions l w s h in ground (arith, awake)
