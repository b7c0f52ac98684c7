-- ===== src/EventLoop/Steps.antt =====
-- sevent/net/EventLoop.cpp: the steps of the owner thread and of other threads, in any interleaving.
use sevent.Base.{
  ℕ, zero, suc, Bool, true, false, ◌&&◌, bind_option, Option, none, some, List, [], ◌∷◌, ◌++◌, ltb,
  ◌==◌, length, if◌then◌else◌,
}
use sevent.EventLoop.{
  Active, wakeup_channel, other_channel, Phase, Loop, wakeup, push, queue_in_loop, quit,
  start_tasks, check_quit, end_tasks, handle_active,
}

-- A call by another thread is two steps: `pushes` or `sets_quit`, and later `wakes`.
pub data Action : Type 0 where
  enters_loop handles starts_tasks runs_task ends_tasks quits sets_quit wakes : Action
  poll_returns : List Active → Action
  queues pushes : ℕ → Action

abbrev pub has_wakeup : List Active → Bool
has_wakeup [] = false
has_wakeup (wakeup_channel ∷ active) = true
has_wakeup (other_channel ∷ active) = has_wakeup active

-- `poll` reports the wakeup channel if and only if its counter is not 0. The poller has room for all
-- channels that are ready, where the first call of epoll has room for 16, and a poll that a signal ends,
-- which reports none, is one that goes on.
abbrev pub is_answer : ℕ → List Active → Bool
is_answer counter active = if has_wakeup active then ltb 0 counter else counter == 0

abbrev pub is_starting : Phase → Bool
is_starting Phase.starting = true
is_starting _ = false

abbrev pub is_polling : Phase → Bool
is_polling Phase.polling = true
is_polling _ = false

abbrev pub is_tasking_phase : Phase → Bool
is_tasking_phase Phase.tasking = true
is_tasking_phase _ = false

-- The handlers and the tasks run in the owner thread; it does nothing else while it polls.
abbrev pub runs_code : Phase → Bool
runs_code Phase.polling = false
runs_code Phase.stopped = false
runs_code _ = true

abbrev is_handled : Phase → Bool
is_handled (Phase.handling []) = true
is_handled _ = false

abbrev when {ℓ} : {A : Type ℓ} → Bool → A → Option A
when true a = some a
when false a = none

unfoldable pub handle_next : Phase → Loop → Option (Loop × List ℕ)
handle_next (Phase.handling (a ∷ active)) l =
    some (record (handle_active a l) { phase = Phase.handling active }, [])
handle_next _ l = none

unfoldable pub run_next : List ℕ → Loop → Option (Loop × List ℕ)
run_next (task ∷ tasks) l =
    when (is_tasking_phase l.phase) (record l { tmp_tasks = tasks }, task ∷ [])
run_next [] l = none

unfoldable pub wake_next : ℕ → Loop → Option (Loop × List ℕ)
wake_next (suc owed) l = some (wakeup (record l { owed = owed }), [])
wake_next zero l = none

-- The loop after a step, with the tasks that ran in it; `none` if the step is not possible.
unfoldable pub step : Loop → Action → Option (Loop × List ℕ)
unfolding handle_next run_next wake_next
step l enters_loop = when (is_starting l.phase) (check_quit l, [])
step l (poll_returns active) =
    when (is_polling l.phase && is_answer l.counter active)
      (record l { phase = Phase.handling active }, [])
step l handles = handle_next l.phase l
step l starts_tasks = when (is_handled l.phase) (start_tasks l, [])
step l runs_task = run_next l.tmp_tasks l
step l ends_tasks = when (is_tasking_phase l.phase && (length l.tmp_tasks == 0)) (end_tasks l, [])
step l (queues task) = when (runs_code l.phase) (queue_in_loop true l task, [])
step l (pushes task) = some (record (push l task) { owed = suc l.owed }, [])
step l quits = when (runs_code l.phase) (quit true l, [])
step l sets_quit = some (record l { is_quit = true; owed = suc l.owed }, [])
step l wakes = wake_next l.owed l

abbrev pub run_on : (Loop → Option (Loop × List ℕ)) → Loop × List ℕ → Option (Loop × List ℕ)
run_on rest (l, ran) = bind_option (rest l) (λ (t : Loop × List ℕ). some (t.0, ran ++ t.1))

unfoldable pub run : Loop → List Action → Option (Loop × List ℕ)
run l [] = some (l, [])
run l (a ∷ actions) = bind_option (step l a) (run_on (λ l'. run l' actions))
