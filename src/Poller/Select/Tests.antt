-- ===== src/Poller/Select/Tests.antt =====
-- Runs of sevent/net/poller/SelectPoller.cpp, and the theorems at them.
use sevent.Base.{ℕ, ◌≡◌, refl, true, [], ◌∷◌, arith, ok}
use sevent.Base.Int.{pos, negsuc}
use sevent.Channel.{Events, none_event}
use sevent.Poller.{Chan}
use sevent.Poller.Epoll.{updates}
use sevent.Poller.Select.{
  Sets, Timeval, reset, do_poll, apply_all, fill_active_channels, no_sets, reads, writes,
}
use sevent.Poller.Select.Same.{SameWatch, apply_all-SameWatch}

abbrev both_events : Events
both_events = record { read = true; write = true }

abbrev chan : ℕ → ℕ → Chan
chan id fd = record { id = id; fd = fd; index = pos 1; events = both_events }

abbrev fresh : Chan
fresh = record { id = 30; fd = 3; index = negsuc 0; events = none_event }

run :
    apply_all (chan 40 4 ∷ []) fresh (updates both_events ∷ [])
    ≡ ok (chan 30 3 ∷ chan 40 4 ∷ [], chan 30 3)
unfolding sevent.Poller.Select.apply_all sevent.Poller.Select.apply
run = refl

polled :
    do_poll (chan 30 3 ∷ chan 40 4 ∷ []) 1500
    ≡ ok (
      5,
      record { rset = 4 ∷ 3 ∷ []; wset = 4 ∷ 3 ∷ []; eset = 4 ∷ 3 ∷ []; maxfd = pos 4 },
      record { tv_sec = 1; tv_usec = 500000 },
    )
unfolding sevent.Poller.Select.do_poll
polled = refl

apply_all-SameWatch_example :
    SameWatch
      (chan 40 4 ∷ [])
      fresh
      (updates both_events ∷ updates none_event ∷ updates both_events ∷ [])
      []
apply_all-SameWatch_example =
    apply_all-SameWatch (chan 40 4 ∷ []) fresh
      (updates both_events ∷ updates none_event ∷ updates both_events ∷ []) [] refl refl refl refl
      (omega arith)

-- Descriptor 3 is writable, and 4 is readable with an exception.
abbrev came : Sets
came = record { rset = 4 ∷ []; wset = 3 ∷ []; eset = 4 ∷ []; maxfd = pos 4 }
