-- ===== src/EventLoop.antt =====
-- sevent/net/EventLoop.cpp and sevent/net/WakeupChannel.cpp: the loop, its queue of tasks, and the
-- descriptor through which other threads wake it.
-- A task is a number. The owner thread moves from phase to phase of `loop`; another thread is between
-- its locked section and its `wakeup` while it counts in `owed`.
pub mod Steps
pub mod Wakeups
pub mod Order
mod Tests
use sevent.Base.{
  ℕ, suc, ◌+◌, ◌-◌, ◌^◌, Bool, true, false, not, ◌||◌, List, [], ◌∷◌, ◌++◌, ltb, if◌then◌else◌,
}

-- What `poll` returned: the wakeup channel or another one.
pub data Active : Type 0 where
  wakeup_channel other_channel : Active

pub data Phase : Type 0 where
  starting polling stopped tasking : Phase
  handling : List Active → Phase

pub record Loop : Type 0 where
  pub phase : Phase
  pub is_tasking : Bool
  pub is_quit : Bool
  pub pending_tasks : List ℕ
  pub tmp_tasks : List ℕ
  pub counter : ℕ
  pub owed : ℕ

abbrev pub create_loop : Loop
create_loop = record {
  phase = starting;
  is_tasking = false;
  is_quit = false;
  pending_tasks = [];
  tmp_tasks = [];
  counter = 0;
  owed = 0;
}

-- A `write` of 1 to the `eventfd`, which fails if the counter would reach 2 ^ 64 - 1.
unfoldable pub wakeup : Loop → Loop
wakeup l = if ltb (suc l.counter) (2 ^ 64 - 1) then record l { counter = suc l.counter } else l

-- A `read` of the `eventfd` takes the whole counter.
unfoldable pub handle_wakeup : Loop → Loop
handle_wakeup l = record l { counter = 0 }

abbrev pub push : Loop → ℕ → Loop
push l task = record l { pending_tasks = l.pending_tasks ++ task ∷ [] }

unfoldable pub queue_in_loop : Bool → Loop → ℕ → Loop
unfolding wakeup
queue_in_loop in_owner l task =
    if not in_owner || l.is_tasking then wakeup (push l task) else push l task

-- The loop, and what ran at once.
unfoldable pub run_in_loop : Bool → Loop → ℕ → Loop × List ℕ
unfolding queue_in_loop
run_in_loop in_owner l task =
    if in_owner then (l, task ∷ []) else (queue_in_loop in_owner l task, [])

unfoldable pub quit : Bool → Loop → Loop
unfolding wakeup
quit in_owner l = let l' = record l { is_quit = true } in if in_owner then l' else wakeup l'

-- `doPendingTasks` up to its loop: the queue is swapped with an empty one.
unfoldable pub start_tasks : Loop → Loop
start_tasks l = record l {
  phase = tasking;
  is_tasking = true;
  tmp_tasks = l.pending_tasks;
  pending_tasks = [];
}

-- `while (!isQuit)`
unfoldable pub check_quit : Loop → Loop
check_quit l = record l { phase = if l.is_quit then stopped else polling }

-- The end of `doPendingTasks`, and back to the test of `loop`.
unfoldable pub end_tasks : Loop → Loop
unfolding check_quit
end_tasks l = check_quit (record l { is_tasking = false })

-- One active channel is handled.
unfoldable pub handle_active : Active → Loop → Loop
unfolding handle_wakeup
handle_active wakeup_channel l = handle_wakeup l
handle_active other_channel l = l
