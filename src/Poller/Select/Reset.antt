-- ===== src/Poller/Select/Reset.antt =====
-- sevent/net/poller/SelectPoller.cpp: which descriptors are in the sets after `reset`.
use sevent.Base.{
  ℕ, ◌+◌, ◌<◌, ◌≤◌, ◌≡◌, refl, Bool-cases, inl, inr, Bool, true, false, ◌||◌, ◌&&◌, List, [], ◌∷◌,
  ◌++◌, arith, leb, ltb, ◌==◌, length, le→ltb, if◌then◌else◌, Result, ok, err, out_of_bounds,
}
use sevent.Poller.{Chan}
use sevent.Poller.Select.{
  Sets, fd_setsize, is_set, reads, writes, is_watched, counted, add_channel, max_fd, reset_from,
  reset, no_sets,
}

abbrev pub asks_read : List Chan → ℕ → Bool
asks_read [] fd = false
asks_read (c ∷ cs) fd = (reads c && c.fd == fd) || asks_read cs fd

abbrev pub asks_write : List Chan → ℕ → Bool
asks_write [] fd = false
asks_write (c ∷ cs) fd = (writes c && c.fd == fd) || asks_write cs fd

-- Each descriptor has its bit in a set.
abbrev pub all_small : List Chan → Bool
all_small [] = true
all_small (c ∷ cs) = ltb c.fd fd_setsize && all_small cs

-- The sets `s'` have the descriptors of `s` and those that the channels ask for.
pub record Asked (cs : List Chan) (s : Sets) (fd : ℕ) (r : Result Sets) : Type 0 where
  pub s' : Sets
  pub returned : r ≡ ok s'
  pub read_asked : is_set s'.rset fd ≡ (asks_read cs fd || is_set s.rset fd)
  pub write_asked : is_set s'.wset fd ≡ (asks_write cs fd || is_set s.wset fd)
  pub except_asked : is_set s'.eset fd ≡ (asks_read cs fd || is_set s.eset fd)

add_channel-Asked :
    (c : Chan) (s : Sets) (fd : ℕ)
    → ltb c.fd fd_setsize ≡ true
    → Asked (c ∷ []) s fd (add_channel c s)
unfolding add_channel
add_channel-Asked c s fd h = record {
  s' = record {
    rset = if reads c then c.fd ∷ s.rset else s.rset;
    wset = if writes c then c.fd ∷ s.wset else s.wset;
    eset = if reads c then c.fd ∷ s.eset else s.eset;
    maxfd = if is_watched c then max_fd c.fd s.maxfd else s.maxfd;
  };
  returned = elim (Bool-cases (reads c)) [
    | inl r ↦ elim (Bool-cases (writes c)) [ inl w ↦ rw (r, w, h) refl | inr w ↦ rw (r, w, h) refl ]
    | inr r ↦ elim (Bool-cases (writes c)) [ inl w ↦ rw (r, w, h) refl | inr w ↦ rw (r, w) refl ]
  ];
  read_asked = ground arith;
  write_asked = ground arith;
  except_asked = ground arith;
}

reset_from-Asked :
    (cs : List Chan) (count : ℕ) (s : Sets) (fd : ℕ)
    → all_small cs ≡ true
    → count + length cs < fd_setsize
    → Asked cs s fd (reset_from cs count s)
unfolding reset_from
reset_from-Asked [] count s fd h n = record {
  s' = s;
  returned = refl;
  read_asked = refl;
  write_asked = refl;
  except_asked = refl;
}
reset_from-Asked (c ∷ cs) count s fd h n =
    let a = add_channel-Asked c s fd (ground (arith, h)) in
    let rest =
      reset_from-Asked cs (counted c count) a.s' fd (ground (arith, h)) (ground (arith, n)) in
    let below : (is_watched c && leb fd_setsize (counted c count)) ≡ false = ground (arith, n) in
    record {
      s' = rest.s';
      returned = rw (a.returned, below) rest.returned;
      read_asked = ground (arith, rest.read_asked, a.read_asked);
      write_asked = ground (arith, rest.write_asked, a.write_asked);
      except_asked = ground (arith, rest.except_asked, a.except_asked);
    }

-- The sets have exactly the descriptors that the channels ask for.
pub reset-Asked :
    (cs : List Chan) (fd : ℕ)
    → all_small cs ≡ true
    → length cs < fd_setsize
    → Asked cs no_sets fd (reset cs)
unfolding reset
reset-Asked cs fd h n = reset_from-Asked cs 0 no_sets fd h (omega (arith, n))

add_channel-large :
    (c : Chan) (s : Sets)
    → is_watched c ≡ true
    → fd_setsize ≤ c.fd
    → add_channel c s ≡ err out_of_bounds
unfolding add_channel
add_channel-large c s w h = elim (Bool-cases (reads c)) [
  | inl r ↦ rw (r, le→ltb c.fd fd_setsize h) refl
  | inr r ↦
      let asks : writes c ≡ true = ground (arith, w, r) in
      rw (r, asks, le→ltb c.fd fd_setsize h) refl
]

reset_from-large :
    (before : List Chan) (c : Chan) (after : List Chan) (count : ℕ) (s : Sets)
    → all_small before ≡ true
    → count + length before < fd_setsize
    → is_watched c ≡ true
    → fd_setsize ≤ c.fd
    → reset_from (before ++ c ∷ after) count s ≡ err out_of_bounds
unfolding reset_from
reset_from-large [] c after count s h n w l = rw (add_channel-large c s w l) refl
reset_from-large (b ∷ before) c after count s h n w l =
    let a = add_channel-Asked b s 0 (ground (arith, h)) in
    let below : (is_watched b && leb fd_setsize (counted b count)) ≡ false = ground (arith, n) in
    rw (a.returned, below)
      (reset_from-large before c after (counted b count) a.s' (ground (arith, h))
        (ground (arith, n)) w l)

-- The first watched descriptor that is not below `FD_SETSIZE`, behind fewer than `FD_SETSIZE` channels,
-- is set outside the set.
pub reset-large :
    (before : List Chan) (c : Chan) (after : List Chan)
    → all_small before ≡ true
    → length before < fd_setsize
    → is_watched c ≡ true
    → fd_setsize ≤ c.fd
    → reset (before ++ c ∷ after) ≡ err out_of_bounds
unfolding reset
reset-large before c after h n w l =
    reset_from-large before c after 0 no_sets h (omega (arith, n)) w l
