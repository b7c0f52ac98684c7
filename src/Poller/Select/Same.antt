-- ===== src/Poller/Select/Same.antt =====
-- sevent/net/poller/SelectPoller.cpp and sevent/net/poller/EpollPoller.cpp: the two pollers, driven by
-- the same calls.
use sevent.Base.{
  ℕ, suc, ◌+◌, ◌<◌, ◌≡◌, refl, ap, sym, subst, ◌∙◌, inl, inr, Bool, true, false, ◌&&◌, ◌||◌, Option,
  none, some, List, [], ◌∷◌, ◌++◌, arith, ◌==◌, length, length-append, ok,
}
use sevent.Channel.{Events, none_event}
use sevent.Poller.{Chan, lookup}
use sevent.Poller.Epoll.{ready, normal, removed, Ctl, watch_all, Op, updates, removes}
use sevent.Poller.Epoll
use sevent.Poller.Epoll.Watched.{IsTracked, op-Follows, watch_all-append}
use sevent.Poller.Select.{Sets, fd_setsize, is_set, reads, writes, apply_all, reset}
use sevent.Poller.Select.Reset.{asks_read, asks_write, all_small, reset-Asked}
use sevent.Poller.Select.Placed.{all_other, IsPlaced, apart, moved, op-IsPlaced}

epoll_moved :
    (entries entries' : List (ℕ × ℕ)) (c c' : Chan) (ctls : List Ctl) (op : Op) (w : Option Events)
    → IsTracked entries c w
    → Epoll.apply entries c op ≡ ok (entries', c', ctls)
    → c' ≡ moved c op
unfolding Epoll.apply Epoll.update_channel Epoll.remove_channel
epoll_moved entries entries' c c' ctls (updates e) w t h = ground (arith, t)
epoll_moved entries entries' c c' ctls removes w t h = ground arith

epoll_step :
    (entries : List (ℕ × ℕ)) (c : Chan) (op : Op) (w : Option Events)
    → IsTracked entries c w
    → (entries' : List (ℕ × ℕ)) × (ctls : List Ctl) × (w' : Option Events) × (Epoll.apply entries c
          op
        ≡ ok (entries', moved c op, ctls))
      × (watch_all ctls w ≡ some w')
      × IsTracked entries' (moved c op) w'
epoll_step entries c op w t =
    let f = op-Follows (suc c.fd) entries c w op (ground arith) t in
    let m = epoll_moved entries f.entries' c f.c' f.ctls op w t f.returned in
    let (returned, tracked) =
      subst
        (λ d. (Epoll.apply entries c op ≡ ok (f.entries', d, f.ctls)) × IsTracked f.entries' d f.w')
        m (f.returned, f.tracked) in
    (f.entries', f.ctls, f.w', returned, f.accepted, tracked)

-- Both pollers return, with the channel in the same state.
record Both (others : List Chan) (c : Chan) (entries : List (ℕ × ℕ)) (w : Option Events)
    (cs : List Chan) (ops : List Op) : Type 0 where
  entries' : List (ℕ × ℕ)
  c' : Chan
  ctls : List Ctl
  w' : Option Events
  cs' : List Chan
  epoll : Epoll.apply_all entries c ops ≡ ok (entries', c', ctls)
  accepted : watch_all ctls w ≡ some w'
  select : apply_all cs c ops ≡ ok (cs', c')
  tracked : IsTracked entries' c' w'
  placed : IsPlaced others cs' c'
  same : (c'.fd ≡ c.fd) × (c'.id ≡ c.id)

all_other-moved : (c : Chan) (op : Op) (ds : List Chan) → all_other (moved c op) ds ≡ all_other c ds
all_other-moved c (updates e) ds = refl
all_other-moved c removes ds = refl

moved-fd : (c : Chan) (op : Op) → ((moved c op).fd ≡ c.fd) × ((moved c op).id ≡ c.id)
moved-fd c (updates e) = (refl, refl)
moved-fd c removes = (refl, refl)

ops-Both :
    (others : List Chan) (c : Chan) (entries : List (ℕ × ℕ)) (w : Option Events) (cs : List Chan)
    (ops : List Op)
    → all_other c others ≡ true
    → IsTracked entries c w
    → IsPlaced others cs c
    → Both others c entries w cs ops
unfolding Epoll.apply_all apply_all
ops-Both others c entries w cs [] h t p = record {
  entries' = entries;
  c' = c;
  ctls = [];
  w' = w;
  cs' = cs;
  epoll = refl;
  accepted = refl;
  select = refl;
  tracked = t;
  placed = p;
  same = (refl, refl);
}
ops-Both others c entries w cs (op ∷ ops) h t p =
    let (entries', ctls, w', stepped, accepted, tracked) = epoll_step entries c op w t in
    let (cs', done, placed) = op-IsPlaced others cs c op h p in
    let rest =
      ops-Both others (moved c op) entries' w' cs' ops (all_other-moved c op others ∙ h) tracked
        placed in
    record {
      entries' = rest.entries';
      c' = rest.c';
      ctls = ctls ++ rest.ctls;
      w' = rest.w';
      cs' = rest.cs';
      epoll = rw (stepped, rest.epoll) refl;
      accepted = rw (watch_all-append ctls rest.ctls w, accepted) rest.accepted;
      select = rw (done, rest.select) refl;
      tracked = rest.tracked;
      placed = rest.placed;
      same = (rest.same.0 ∙ (moved-fd c op).0, rest.same.1 ∙ (moved-fd c op).1);
    }

-- What is watched, `none` for nothing.
abbrev pub watched_events : Option Events → Events
watched_events none = none_event
watched_events (some e) = e

-- Both pollers return from the calls with the channel in the same state, the kernel refused no call of
-- `epoll_ctl`, and the sets that select waits with have the descriptor as epoll watches it.
pub record SameWatch (others : List Chan) (c : Chan) (ops : List Op) (entries : List (ℕ × ℕ))
    : Type 0 where
  pub entries' : List (ℕ × ℕ)
  pub c' : Chan
  pub ctls : List Ctl
  pub w : Option Events
  pub cs' : List Chan
  pub s : Sets
  pub epoll : Epoll.apply_all entries c ops ≡ ok (entries', c', ctls)
  pub accepted : watch_all ctls none ≡ some w
  pub select : apply_all others c ops ≡ ok (cs', c')
  pub returned : reset cs' ≡ ok s
  pub reads_same : is_set s.rset c.fd ≡ (watched_events w).read
  pub writes_same : is_set s.wset c.fd ≡ (watched_events w).write
  pub excepts_same : is_set s.eset c.fd ≡ (watched_events w).read

-- Where the channel is, in the sets that a `reset` makes.
asks-other :
    (c : Chan) (ds : List Chan)
    → all_other c ds ≡ true
    → (asks_read ds c.fd ≡ false) × (asks_write ds c.fd ≡ false)
asks-other c [] h = (refl, refl)
asks-other c (d ∷ ds) h =
    let differs : (d.fd == c.fd) ≡ false = ground (arith, h) in
    let rest = asks-other c ds (ground (arith, h)) in
    (ground (arith, rest.0), ground (arith, rest.1))

asks-placed :
    (c : Chan) (xs ys : List Chan)
    → all_other c xs ≡ true
    → all_other c ys ≡ true
    → (asks_read (xs ++ c ∷ ys) c.fd ≡ reads c) × (asks_write (xs ++ c ∷ ys) c.fd ≡ writes c)
asks-placed c [] ys h k =
    let rest = asks-other c ys k in (ground (arith, rest.0), ground (arith, rest.1))
asks-placed c (x ∷ xs) ys h k =
    let differs : (x.fd == c.fd) ≡ false = ground (arith, h) in
    let rest = asks-placed c xs ys (ground (arith, h)) k in
    (ground (arith, rest.0), ground (arith, rest.1))

all_small-append : (xs ys : List Chan) → all_small (xs ++ ys) ≡ (all_small xs && all_small ys)
all_small-append [] ys = refl
all_small-append (x ∷ xs) ys = ground (arith, all_small-append xs ys)

reads-tracked :
    (entries : List (ℕ × ℕ)) (c : Chan) (w : Option Events)
    → IsTracked entries c w
    → (reads c ≡ (watched_events w).read) × (writes c ≡ (watched_events w).write)
reads-tracked entries c w (inl (i, l, n)) = (rw n (simp i), rw n (simp i))
reads-tracked entries c w (inr (inl (i, l, n))) = (rw n (simp i), rw n (simp i))
reads-tracked entries c w (inr (inr (i, l, n))) = (rw n (simp i), rw n (simp i))

asks-IsPlaced :
    (others cs : List Chan) (c : Chan)
    → all_other c others ≡ true
    → IsPlaced others cs c
    → (asks_read cs c.fd ≡ reads c) × (asks_write cs c.fd ≡ writes c)
asks-IsPlaced others cs c h (inl (i, same)) =
    let a = asks-other c others h in (rw (same, a.0) (simp i), rw (same, a.1) (simp i))
asks-IsPlaced others cs c h (inr (xs, ys, i, split, placed)) =
    let both = apart c others xs ys split h in
    let a = asks-placed c xs ys both.0 both.1 in (rw placed a.0, rw placed a.1)

all_other-same :
    (c c' : Chan) (ds : List Chan) → c'.fd ≡ c.fd → c'.id ≡ c.id → all_other c' ds ≡ all_other c ds
all_other-same c c' [] f i = refl
all_other-same c c' (d ∷ ds) f i = rw (f, i, all_other-same c c' ds f i) refl

-- What a tracked and placed channel has in the sets.
tracked_asks :
    (others cs : List Chan) (entries : List (ℕ × ℕ)) (c : Chan) (w : Option Events)
    → all_other c others ≡ true
    → IsTracked entries c w
    → IsPlaced others cs c
    → (asks_read cs c.fd ≡ (watched_events w).read)
      × (asks_write cs c.fd ≡ (watched_events w).write)
tracked_asks others cs entries c w h t p =
    let a = asks-IsPlaced others cs c h p in
    let r = reads-tracked entries c w t in (a.0 ∙ r.0, a.1 ∙ r.1)

small_placed :
    (others cs : List Chan) (c : Chan)
    → all_small (c ∷ others) ≡ true
    → length (c ∷ others) < fd_setsize
    → IsPlaced others cs c
    → (all_small cs ≡ true) × (length cs < fd_setsize)
small_placed others cs c h n (inl (i, same)) =
    (rw same (ground (arith, h)), rw same (omega (arith, n)))
small_placed others cs c h n (inr (xs, ys, i, split, placed)) =
    let l = length-append xs ys in
    let both : (all_small xs && all_small ys) ≡ true =
      sym (all_small-append xs ys) ∙ ap all_small (sym split) ∙ ground (arith, h) in
    let l' : length others ≡ length xs + length ys = rw split l in
    (
      rw (placed, all_small-append xs (c ∷ ys)) (ground (arith, h, both)),
      rw (placed, length-append xs (c ∷ ys)) (omega (arith, n)),
    )

or_false : (b : Bool) → (b || false) ≡ b
or_false b = ground arith

-- A channel that no poller has, among fewer than `FD_SETSIZE` channels whose descriptors are below it,
-- is driven through the epoll poller and the select poller by the same calls: both return, no assert
-- fails and the channel ends in the same state, the kernel refused no call of `epoll_ctl`, and the next
-- `reset` asks select for reads, writes and exceptions of the descriptor exactly as epoll watches it.
pub apply_all-SameWatch :
    (others : List Chan) (c : Chan) (ops : List Op) (entries : List (ℕ × ℕ))
    → c.index ≡ ready
    → lookup entries c.fd ≡ none
    → all_other c others ≡ true
    → all_small (c ∷ others) ≡ true
    → length (c ∷ others) < fd_setsize
    → SameWatch others c ops entries
apply_all-SameWatch others c ops entries i l h small n =
    let b = ops-Both others c entries none others ops h (inl (i, l, refl)) (inl (i, refl)) in
    let h' : all_other b.c' others ≡ true = all_other-same c b.c' others b.same.0 b.same.1 ∙ h in
    let small' : all_small (b.c' ∷ others) ≡ true = ground (arith, small, b.same.0) in
    let (fits, short) = small_placed others b.cs' b.c' small' n b.placed in
    let asks = tracked_asks others b.cs' b.entries' b.c' b.w' h' b.tracked b.placed in
    let asks_r = subst (λ fd. asks_read b.cs' fd ≡ (watched_events b.w').read) b.same.0 asks.0 in
    let asks_w = subst (λ fd. asks_write b.cs' fd ≡ (watched_events b.w').write) b.same.0 asks.1 in
    let a = reset-Asked b.cs' c.fd fits short in
    record {
      entries' = b.entries';
      c' = b.c';
      ctls = b.ctls;
      w = b.w';
      cs' = b.cs';
      s = a.s';
      epoll = b.epoll;
      accepted = b.accepted;
      select = b.select;
      returned = a.returned;
      reads_same = a.read_asked ∙ or_false _ ∙ asks_r;
      writes_same = a.write_asked ∙ or_false _ ∙ asks_w;
      excepts_same = a.except_asked ∙ or_false _ ∙ asks_r;
    }
