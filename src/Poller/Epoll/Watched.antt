-- ===== src/Poller/Epoll/Watched.antt =====
-- sevent/net/poller/EpollPoller.cpp: what the kernel watches after the calls of `epoll_ctl`.
use sevent.Base.{
  ℕ, suc, append-nil, ◌≡◌, ◌⊎◌, inl, inr, Bool-cases, Option-cases, ◌∙◌, bind_option, refl, false,
  Option, none, some, List, [], ◌∷◌, ◌++◌, arith, ◌==◌, if◌then◌else◌, Result, ok,
}
use sevent.Base.Int.{eq_ℤ}
use sevent.Channel.{Events, is_none_event, none_event}
use sevent.Poller.{Chan, lookup, erase, insert, lookup-erase, lookup-erase_other}
use sevent.Poller.Epoll.{
  ready, normal, removed, Ctl, ctl_add, ctl_mod, ctl_del, update_channel, remove_channel, watch,
  watch_all, Op, updates, removes, apply, apply_all,
}

-- The map, the status and what the kernel watches agree.
abbrev pub IsTracked : List (ℕ × ℕ) → Chan → Option Events → Type 0
IsTracked entries c w =
    ((c.index ≡ ready) × (lookup entries c.fd ≡ none) × (w ≡ none))
    ⊎ (((c.index ≡ normal) × (lookup entries c.fd ≡ some c.id) × (w ≡ some c.events))
        ⊎ ((c.index ≡ removed) × (lookup entries c.fd ≡ some c.id) × (w ≡ none)))

-- One operation did not fail, the kernel refused no call, they agree afterwards, and the descriptor of
-- any other channel is mapped as before.
pub record Follows (other : ℕ) (entries : List (ℕ × ℕ)) (c : Chan) (w : Option Events)
    (r : Result (List (ℕ × ℕ) × Chan × List Ctl)) : Type 0 where
  pub entries' : List (ℕ × ℕ)
  pub c' : Chan
  pub ctls : List Ctl
  pub w' : Option Events
  pub returned : r ≡ ok (entries', c', ctls)
  pub accepted : watch_all ctls w ≡ some w'
  pub tracked : IsTracked entries' c' w'
  pub same : (c'.fd ≡ c.fd) × (c'.id ≡ c.id)
  pub others : lookup entries' other ≡ lookup entries other

update-Follows :
    (other : ℕ) (entries : List (ℕ × ℕ)) (c : Chan) (w : Option Events) (e : Events)
    → (c.fd == other) ≡ false
    → IsTracked entries c w
    → Follows other entries c w (apply entries c (updates e))
unfolding apply update_channel
update-Follows other entries c w e h (inl (i, l, n)) = record {
  entries' = insert entries c.fd c.id;
  c' = record c { index = normal; events = e };
  ctls = ctl_add c.fd e ∷ [];
  w' = some e;
  returned = ground (arith, i, l);
  accepted = rw n refl;
  tracked = inr (inl (refl, ground arith, refl));
  same = (refl, refl);
  others = ground (arith, lookup-erase_other entries c.fd other h);
}
update-Follows other entries c w e h (inr (inl (i, l, n))) = elim (Bool-cases (is_none_event e)) [
  | inl empty ↦ record {
    entries' = entries;
    c' = record c { index = removed; events = e };
    ctls = ctl_del c.fd e ∷ [];
    w' = none;
    returned = ground (arith, i, l, empty);
    accepted = rw n refl;
    tracked = inr (inr (refl, l, refl));
    same = (refl, refl);
    others = refl;
  }
  | inr asks ↦ record {
    entries' = entries;
    c' = record c { events = e };
    ctls = ctl_mod c.fd e ∷ [];
    w' = some e;
    returned = ground (arith, i, l, asks);
    accepted = rw n refl;
    tracked = inr (inl (i, l, refl));
    same = (refl, refl);
    others = refl;
  }
]
update-Follows other entries c w e h (inr (inr (i, l, n))) = record {
  entries' = entries;
  c' = record c { index = normal; events = e };
  ctls = ctl_add c.fd e ∷ [];
  w' = some e;
  returned = ground (arith, i, l);
  accepted = rw n refl;
  tracked = inr (inl (refl, l, refl));
  same = (refl, refl);
  others = refl;
}

remove-Follows :
    (other : ℕ) (entries : List (ℕ × ℕ)) (c : Chan) (w : Option Events)
    → (c.fd == other) ≡ false
    → IsTracked entries c w
    → Follows other entries c w (apply entries c removes)
unfolding apply remove_channel
remove-Follows other entries c w h t = record {
  entries' = erase entries c.fd;
  c' = record c { index = ready; events = none_event };
  ctls = if eq_ℤ c.index normal then ctl_del c.fd none_event ∷ [] else [];
  w' = none;
  returned = refl;
  accepted = ground (arith, t);
  tracked = inl (refl, lookup-erase entries c.fd, refl);
  same = (refl, refl);
  others = lookup-erase_other entries c.fd other h;
}

pub op-Follows :
    (other : ℕ) (entries : List (ℕ × ℕ)) (c : Chan) (w : Option Events) (op : Op)
    → (c.fd == other) ≡ false
    → IsTracked entries c w
    → Follows other entries c w (apply entries c op)
op-Follows other entries c w (updates e) h t = update-Follows other entries c w e h t
op-Follows other entries c w removes h t = remove-Follows other entries c w h t

pub watch_all-append :
    (ctls more : List Ctl) (w : Option Events)
    → watch_all (ctls ++ more) w ≡ bind_option (watch_all ctls w) (watch_all more)
watch_all-append [] more w = refl
watch_all-append (ctl ∷ ctls) more w = elim (Option-cases (watch ctl w)) [
  | inl refused ↦ rw refused refl
  | inr (w', done) ↦ rw done (watch_all-append ctls more w')
]

-- Whatever the owner of a channel does with it, no assert fails and the kernel refuses no call of
-- `epoll_ctl`; the map, the status of the channel and what the kernel watches agree afterwards; and the
-- other descriptors keep their channels.
pub apply_all-Follows :
    (other : ℕ) (ops : List Op) (entries : List (ℕ × ℕ)) (c : Chan) (w : Option Events)
    → (c.fd == other) ≡ false
    → IsTracked entries c w
    → Follows other entries c w (apply_all entries c ops)
unfolding apply_all
apply_all-Follows other [] entries c w h t = record {
  entries' = entries;
  c' = c;
  ctls = [];
  w' = w;
  returned = refl;
  accepted = refl;
  tracked = t;
  same = (refl, refl);
  others = refl;
}
apply_all-Follows other (op ∷ ops) entries c w h t =
    let f = op-Follows other entries c w op h t in
    let g = apply_all-Follows other ops f.entries' f.c' f.w' (rw f.same.0 h) f.tracked in
    record {
      entries' = g.entries';
      c' = g.c';
      ctls = f.ctls ++ g.ctls;
      w' = g.w';
      returned = rw (f.returned, g.returned) refl;
      accepted = rw (watch_all-append f.ctls g.ctls w, f.accepted) g.accepted;
      tracked = g.tracked;
      same = (g.same.0 ∙ f.same.0, g.same.1 ∙ f.same.1);
      others = g.others ∙ f.others;
    }

update_watches :
    (entries : List (ℕ × ℕ)) (c : Chan) (w : Option Events) (e : Events)
    → is_none_event e ≡ false
    → IsTracked entries c w
    → (entries' : List (ℕ × ℕ)) × (c' : Chan) × (ctls : List Ctl) × (apply entries c (updates e)
        ≡ ok (entries', c', ctls))
      × (watch_all ctls w ≡ some (some e))
unfolding apply update_channel
update_watches entries c w e h (inl (i, l, n)) = (
  insert entries c.fd c.id,
  record c { index = normal; events = e },
  ctl_add c.fd e ∷ [],
  ground (arith, i, l),
  rw n refl,
)
update_watches entries c w e h (inr (inl (i, l, n))) =
    (entries, record c { events = e }, ctl_mod c.fd e ∷ [], ground (arith, i, l, h), rw n refl)
update_watches entries c w e h (inr (inr (i, l, n))) = (
  entries,
  record c { index = normal; events = e },
  ctl_add c.fd e ∷ [],
  ground (arith, i, l),
  rw n refl,
)

-- After a last update that asks for events, on a channel that was tracked, the kernel watches for
-- exactly these.
pub last_update :
    (ops : List Op) (entries : List (ℕ × ℕ)) (c : Chan) (w : Option Events) (e : Events)
    → is_none_event e ≡ false
    → IsTracked entries c w
    → (entries' : List (ℕ × ℕ)) × (c' : Chan) × (ctls : List Ctl) × (apply_all entries c
          (ops ++ updates e ∷ [])
        ≡ ok (entries', c', ctls))
      × (watch_all ctls w ≡ some (some e))
unfolding apply_all
last_update [] entries c w e h t =
    let (entries', c', ctls, done, watched) = update_watches entries c w e h t in
    (entries', c', ctls ++ [], rw done refl, rw (append-nil ctls) watched)
last_update (op ∷ ops) entries c w e h t =
    let f = op-Follows (suc c.fd) entries c w op (ground arith) t in
    let (entries', c', ctls, done, watched) = last_update ops f.entries' f.c' f.w' e h f.tracked in
    (
      entries',
      c',
      f.ctls ++ ctls,
      rw (f.returned, done) refl,
      rw (watch_all-append f.ctls ctls w, f.accepted) watched,
    )
