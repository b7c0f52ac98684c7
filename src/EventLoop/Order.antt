-- ===== src/EventLoop/Order.antt =====
-- sevent/net/EventLoop.cpp: which tasks run, in what order.
use sevent.Base.{
  ℕ, ◌<◌, ◌≡◌, refl, sym, ap, subst, ◌∙◌, ◌⊎◌, true, false, some, List, [], ◌∷◌, ◌++◌, arith,
  lt→ltb, some-injective, bind_option-eq-some, append_assoc, append-nil, map,
}
use sevent.EventLoop.{
  Active, Phase, Loop, create_loop, push, wakeup, queue_in_loop, quit, start_tasks, check_quit,
  end_tasks, handle_active,
}
use sevent.EventLoop.Steps.{
  Action, step, run, run_on, is_polling, is_tasking_phase, is_starting, is_answer, handle_next,
  run_next, wake_next,
}

-- The tasks that wait, the next one first.
abbrev pub waiting_tasks : Loop → List ℕ
waiting_tasks l = l.tmp_tasks ++ l.pending_tasks

-- The tasks that an action queues.
abbrev pub queued : Action → List ℕ
queued (Action.queues task) = task ∷ []
queued (Action.pushes task) = task ∷ []
queued _ = []

abbrev pub all_queued : List Action → List ℕ
all_queued [] = []
all_queued (a ∷ actions) = queued a ++ all_queued actions

-- A batch is left only while the tasks run.
abbrev pub IsBatched : Loop → Type 0
IsBatched l = (is_tasking_phase l.phase ≡ true) ⊎ (l.tmp_tasks ≡ [])

abbrev Keeps : Loop → Loop → List ℕ → List ℕ → Type 0
Keeps l l' new ran = IsBatched l' × (ran ++ waiting_tasks l' ≡ waiting_tasks l ++ new)

step-Keeps :
    (l : Loop) (a : Action) {l' : Loop} {ran : List ℕ}
    → IsBatched l
    → step l a ≡ some (l', ran)
    → Keeps l l' (queued a) ran
unfolding step handle_next run_next wake_next queue_in_loop quit wakeup start_tasks end_tasks
    check_quit handle_active
step-Keeps l Action.enters_loop b h = ground (arith, append-nil (waiting_tasks l))
step-Keeps l Action.handles b h = ground (arith, append-nil (waiting_tasks l))
step-Keeps l Action.starts_tasks b h =
    ground (arith, append-nil (waiting_tasks l), append-nil l.pending_tasks)
step-Keeps l Action.runs_task b h = ground (arith, append-nil (waiting_tasks l))
step-Keeps l Action.ends_tasks b h = ground (arith, append-nil (waiting_tasks l))
step-Keeps l Action.quits b h = ground (arith, append-nil (waiting_tasks l))
step-Keeps l Action.sets_quit b h = ground (arith, append-nil (waiting_tasks l))
step-Keeps l Action.wakes b h = ground (arith, append-nil (waiting_tasks l))
step-Keeps l (Action.poll_returns active) b h = ground (arith, append-nil (waiting_tasks l))
step-Keeps l (Action.queues task) b h =
    ground (arith, append_assoc l.tmp_tasks l.pending_tasks (task ∷ []))
step-Keeps l (Action.pushes task) b h =
    ground (arith, append_assoc l.tmp_tasks l.pending_tasks (task ∷ []))

-- Whatever the threads do in whatever order, the tasks that ran, followed by those that wait, are those
-- that waited at first followed by those that were queued: each runs once at most, in the order in
-- which they were queued.
pub run-order :
    (actions : List Action) (l : Loop) {l' : Loop} {ran : List ℕ}
    → IsBatched l
    → run l actions ≡ some (l', ran)
    → IsBatched l' × (ran ++ waiting_tasks l' ≡ waiting_tasks l ++ all_queued actions)
unfolding run
run-order [] l b h =
    subst
      (λ (t : Loop × List ℕ). IsBatched t.0 × (t.1 ++ waiting_tasks t.0 ≡ waiting_tasks l ++ []))
      (some-injective h) (b, sym (append-nil (waiting_tasks l)))
run-order (a ∷ actions) l b h =
    let ((l₁, now), stepped, more) =
      bind_option-eq-some (step l a) (run_on (λ l'. run l' actions)) h in
    let ((l₂, later), rest, done) =
      bind_option-eq-some (run l₁ actions) (λ (t : Loop × List ℕ). some (t.0, now ++ t.1)) more in
    let (b₁, kept) = step-Keeps l a b stepped in
    let (b₂, order) = run-order actions l₁ b₁ rest in
    subst
      (λ (t : Loop × List ℕ).
        IsBatched t.0 × (t.1 ++ waiting_tasks t.0 ≡ waiting_tasks l ++ all_queued (a ∷ actions)))
      (some-injective done)
      (
        b₂,
        compose now later (waiting_tasks l₂) (waiting_tasks l₁) (waiting_tasks l) (queued a)
            (all_queued actions) kept order,
      )
  where
    compose :
        (now later end mid start new news : List ℕ)
        → now ++ mid ≡ start ++ new
        → later ++ end ≡ mid ++ news
        → (now ++ later) ++ end ≡ start ++ (new ++ news)
    compose now later end mid start new news first second =
        append_assoc now later end
        ∙ ap (λ t. now ++ t) second
        ∙ sym (append_assoc now mid news)
        ∙ ap (λ t. t ++ news) first
        ∙ append_assoc start new news

-- One turn of the loop in which only the wakeup channel is active and no task queues another.
abbrev pub batch_turn : List ℕ → List Action
batch_turn [] = Action.ends_tasks ∷ []
batch_turn (_ ∷ tasks) = Action.runs_task ∷ batch_turn tasks

abbrev pub turn : Loop → List Action
turn l =
    Action.poll_returns (Active.wakeup_channel ∷ [])
    ∷ Action.handles
    ∷ Action.starts_tasks
    ∷ batch_turn l.pending_tasks

batch_turn_lem :
    (tasks : List ℕ) (l : Loop)
    → is_tasking_phase l.phase ≡ true
    → l.tmp_tasks ≡ tasks
    → run l (batch_turn tasks) ≡ some (end_tasks (record l { tmp_tasks = [] }), tasks)
unfolding run step run_next end_tasks check_quit
batch_turn_lem [] l t e = ground arith
batch_turn_lem (task ∷ tasks) l t e =
    simp (t, e, batch_turn_lem tasks (record l { tmp_tasks = tasks }) t refl) refl

-- A loop that polls with its counter raised runs every task that is queued, in one turn in which
-- nothing else happens, and polls again, with no task queued and the counter at 0.
pub turn-runs :
    (l : Loop)
    → is_polling l.phase ≡ true
    → 0 < l.counter
    → l.is_quit ≡ false
    → (l' : Loop) × (run l (turn l) ≡ some (l', l.pending_tasks))
      × (is_polling l'.phase ≡ true)
      × (l'.pending_tasks ≡ [])
      × (l'.counter ≡ 0)
unfolding run step handle_next start_tasks handle_active end_tasks check_quit
turn-runs l p c q =
    let started : Loop = start_tasks (record l { phase = Phase.handling []; counter = 0 }) in
    (
      end_tasks (record started { tmp_tasks = [] }),
      simp (p, lt→ltb 0 l.counter c, batch_turn_lem l.pending_tasks started refl refl) refl,
      ground (arith, q),
      refl,
      refl,
    )

early_lem :
    (tasks : List ℕ) (l : Loop)
    → is_starting l.phase ≡ true
    → l.is_tasking ≡ false
    → l.is_quit ≡ false
    → run l (map Action.queues tasks ++ Action.enters_loop ∷ [])
      ≡ some (record l { phase = Phase.polling; pending_tasks = l.pending_tasks ++ tasks }, [])
unfolding run step queue_in_loop check_quit
early_lem [] l s t q = simp (s, q, append-nil l.pending_tasks) refl
early_lem (task ∷ tasks) l s t q =
    let pushed : step l (Action.queues task) ≡ some (push l task, []) = ground arith in
    let rest = early_lem tasks (push l task) s t q in
    rw (pushed, rest, append_assoc l.pending_tasks (task ∷ []) tasks) refl

-- Tasks that the owner thread queues before it enters `loop` raise no counter: `poll` then sleeps
-- although they wait.
pub early_tasks_sleep :
    (tasks : List ℕ)
    → (l : Loop) × (run create_loop (map Action.queues tasks ++ Action.enters_loop ∷ [])
        ≡ some (l, []))
      × (is_polling l.phase ≡ true)
      × (l.pending_tasks ≡ tasks)
      × (is_answer l.counter [] ≡ true)
early_tasks_sleep tasks = (_, early_lem tasks create_loop refl refl refl, refl, refl, refl)
