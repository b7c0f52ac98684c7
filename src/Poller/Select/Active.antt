-- ===== src/Poller/Select/Active.antt =====
-- sevent/net/poller/SelectPoller.cpp and sevent/net/Channel.cpp: the channels that select found, and
-- the handlers that are called for them.
use sevent.Base.{
  ℕ, zero, suc, ◌+◌, ◌≤◌, ◌≡◌, refl, Bool-cases, inl, inr, List, [], ◌∷◌, ◌++◌, map, arith,
  if◌then◌else◌,
}
use sevent.Channel.{Handler, handle_read, handle_write, Revents, handle_event}
use sevent.Poller.{Chan}
use sevent.Poller.Select.{Sets, is_active, came_read, came_write, revents_of, fill_active_channels}

abbrev pub active_of : Sets → List Chan → List Chan
active_of s [] = []
active_of s (c ∷ cs) = let rest = active_of s cs in if is_active s c then c ∷ rest else rest

abbrev pub active_count : Sets → List Chan → ℕ
active_count s [] = 0
active_count s (c ∷ cs) = (if is_active s c then 1 else 0) + active_count s cs

-- What the handlers of the channels do: a read if the descriptor is in the first or the last set, and
-- then a write if it is in the second one.
abbrev pub handlers_of : Sets → Chan → Chan × List Handler
handlers_of s c = (
  c,
  (if came_read s c then handle_read ∷ [] else [])
      ++ (if came_write s c then handle_write ∷ [] else []),
)

abbrev pub handled : Chan × Revents → Chan × List Handler
unfolding handle_event
handled (c, r) = (c, handle_event r)

revents_of-handled :
    (s : Sets) (c : Chan)
    → handled (c, revents_of (came_read s c) (came_write s c)) ≡ handlers_of s c
unfolding handle_event
revents_of-handled s c = elim (Bool-cases (came_read s c)) [
  | inl r ↦ elim (Bool-cases (came_write s c)) [ inl w ↦ rw (r, w) refl | inr w ↦ rw (r, w) refl ]
  | inr r ↦ elim (Bool-cases (came_write s c)) [ inl w ↦ rw (r, w) refl | inr w ↦ rw (r, w) refl ]
]

none_active : (cs : List Chan) (s : Sets) → active_count s cs ≤ 0 → active_of s cs ≡ []
none_active [] s h = refl
none_active (c ∷ cs) s h = elim (Bool-cases (is_active s c)) [
  | inl a ↦ absurd (ground (arith, a))
  | inr a ↦ rw (a, none_active cs s (ground (arith, a))) refl
]

-- If select returned at least the number of channels that have a descriptor in one of the sets, then
-- these are found, in the order of the map: for each, handleRead is called exactly if the descriptor is
-- readable or has an exception, and then handleWrite exactly if it is writable, and nothing else.
pub fill_active_channels-handled :
    (cs : List Chan) (s : Sets) (count : ℕ)
    → active_count s cs ≤ count
    → map handled (fill_active_channels cs s count) ≡ map (handlers_of s) (active_of s cs)
unfolding fill_active_channels handle_event
fill_active_channels-handled [] s count h = refl
fill_active_channels-handled (c ∷ cs) s zero h = elim (Bool-cases (is_active s c)) [
  | inl a ↦ absurd (ground (arith, a))
  | inr a ↦ rw (a, none_active cs s (omega arith)) refl
]
fill_active_channels-handled (c ∷ cs) s (suc count) h = elim (Bool-cases (is_active s c)) [
  | inl a ↦
      rw (a, revents_of-handled s c, fill_active_channels-handled cs s count (ground (arith, a)))
        refl
  | inr a ↦ rw (a, fill_active_channels-handled cs s (suc count) (ground (arith, a))) refl
]
