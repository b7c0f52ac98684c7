-- ===== src/Poller/Tests.antt =====
-- Runs of sevent/net/poller, and the theorems at them.
use sevent.Base.{ℕ, refl, inl, true, false, none, [], ◌∷◌}
use sevent.Base.Int.{pos, negsuc}
use sevent.Channel.{Events, none_event}
use sevent.Poller.{Chan}
use sevent.Poller.Epoll.{updates, removes, apply_all}
use sevent.Poller.Epoll.Watched.{Follows, apply_all-Follows}
use sevent.Poller.Poll.{Pollfd, PollPoller}
use sevent.Poller.Poll.Registered.{IsRegistered}

abbrev reads : Events
reads = record { read = true; write = false }

abbrev fresh : Chan
fresh = record { id = 30; fd = 3; index = negsuc 0; events = none_event }

apply_all-Follows_example :
    Follows 4 [] fresh none (apply_all [] fresh (updates reads ∷ updates none_event ∷ removes ∷ []))
apply_all-Follows_example =
    apply_all-Follows 4 (updates reads ∷ updates none_event ∷ removes ∷ []) [] fresh none refl
      (inl (refl, refl, refl))

-- Channels 30 and 40 on the descriptors 3 and 4.
abbrev first : Chan
first = record { id = 30; fd = 3; index = pos 0; events = reads }

abbrev second : Chan
second = record { id = 40; fd = 4; index = pos 1; events = reads }

abbrev pollfd_of : ℕ → ℕ → Pollfd
pollfd_of fd revents = record { fd = pos fd; events = reads; revents = revents }

abbrev both : PollPoller
both = record {
  pollfd_list = pollfd_of 3 0 ∷ pollfd_of 4 1 ∷ [];
  channel_map = (3, 30) ∷ (4, 40) ∷ [];
}

abbrev first_registered : IsRegistered both first
first_registered = record {
  i = 0;
  pfd = pollfd_of 3 0;
  indexed = refl;
  found = refl;
  own = refl;
  mapped = refl;
}

abbrev second_registered : IsRegistered both second
second_registered = record {
  i = 1;
  pfd = pollfd_of 4 1;
  indexed = refl;
  found = refl;
  own = refl;
  mapped = refl;
}
