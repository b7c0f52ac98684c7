-- ===== src/Poller/Select.antt =====
-- sevent/net/poller/SelectPoller.cpp: the map of channels, the sets that `select` is given, and the
-- channels that it finds. A channel in the map is the object itself, in the order of `std::map`.
pub mod Reset
pub mod Placed
pub mod Same
pub mod Active
mod Tests
use sevent.Base.{
  ℕ, zero, suc, ◌+◌, ◌*◌, ◌/◌, ◌%◌, Bool, true, false, not, ◌&&◌, ◌||◌, Option, none, some, List,
  [], ◌∷◌, ltb, leb, ◌==◌, if◌then◌else◌, Result, ok, err, ◌>>=◌, assertion, out_of_bounds,
}
use sevent.Base.Int.{ℤ, pos, negsuc, eq_ℤ}
use sevent.Channel.{Events, Revents, is_none_event, none_event}
use sevent.Poller.{Chan}
use sevent.Poller.Epoll.{ready, normal, removed, Op, updates, removes}

abbrev pub fd_setsize : ℕ
fd_setsize = 1024

-- `channelMap.find(fd)`, `channelMap[fd] = channel` and `channelMap.erase(fd)`
abbrev pub find : List Chan → ℕ → Option Chan
find [] fd = none
find (c ∷ cs) fd = if c.fd == fd then some c else find cs fd

abbrev pub insert : List Chan → Chan → List Chan
insert [] c = c ∷ []
insert (d ∷ ds) c =
    let rest = insert ds c in
    if c.fd == d.fd then c ∷ ds else if ltb c.fd d.fd then c ∷ d ∷ ds else d ∷ rest

abbrev pub erase : List Chan → ℕ → List Chan
erase [] fd = []
erase (c ∷ cs) fd = let rest = erase cs fd in if c.fd == fd then rest else c ∷ rest

-- The object of a channel changes, and so does what the map points to.
abbrev pub store : List Chan → Chan → List Chan
store [] c = []
store (d ∷ ds) c = (if d.id == c.id then c else d) ∷ store ds c

abbrev pub is_absent : Option Chan → Bool
is_absent none = true
is_absent (some _) = false

abbrev pub is_same : Chan → Option Chan → Bool
is_same c none = false
is_same c (some d) = d.id == c.id

abbrev set_status : Chan → ℤ → Chan
set_status c status = record c { index = status }

-- The events of `c` are new, and stand in the object before the call.
unfoldable pub update_channel : List Chan → Chan → Result (List Chan × Chan)
update_channel cs c =
    if eq_ℤ c.index ready
    then if is_absent (find cs c.fd)
      then ok (insert cs (set_status c normal), set_status c normal)
      else err assertion
    else if eq_ℤ c.index normal
    then if is_same c (find cs c.fd)
      then if is_none_event c.events
        then ok (store cs (set_status c removed), set_status c removed)
        else ok (store cs c, c)
      else err assertion
    else ok (store cs (set_status c normal), set_status c normal)

unfoldable pub remove_channel : List Chan → Chan → List Chan × Chan
remove_channel cs c = (erase cs c.fd, set_status c ready)

-- What the owner of a channel does with it.
unfoldable pub apply : List Chan → Chan → Op → Result (List Chan × Chan)
unfolding update_channel remove_channel
apply cs c (updates e) = update_channel cs (record c { events = e })
apply cs c removes = ok (remove_channel cs (record c { events = none_event }))

unfoldable pub apply_all : List Chan → Chan → List Op → Result (List Chan × Chan)
apply_all cs c [] = ok (cs, c)
apply_all cs c (op ∷ ops) = do (cs', c') ← apply cs c op; apply_all cs' c' ops

pub record Sets : Type 0 where
  pub rset : List ℕ
  pub wset : List ℕ
  pub eset : List ℕ
  pub maxfd : ℤ

-- `FD_ISSET`, and `FD_SET`, which is an access to an array of `FD_SETSIZE` bits.
abbrev pub is_set : List ℕ → ℕ → Bool
is_set [] fd = false
is_set (x ∷ xs) fd = x == fd || is_set xs fd

abbrev pub fd_set : ℕ → List ℕ → Result (List ℕ)
fd_set fd xs = if ltb fd fd_setsize then ok (fd ∷ xs) else err out_of_bounds

abbrev fd_set_if : Bool → ℕ → List ℕ → Result (List ℕ)
fd_set_if asked fd xs = if asked then fd_set fd xs else ok xs

-- `maxfd = fd > maxfd ? fd : maxfd`
abbrev pub max_fd : ℕ → ℤ → ℤ
max_fd fd (negsuc m) = pos fd
max_fd fd (pos m) = if ltb m fd then pos fd else pos m

abbrev pub is_watched : Chan → Bool
is_watched c = eq_ℤ c.index normal && not (is_none_event c.events)

abbrev pub reads : Chan → Bool
reads c = eq_ℤ c.index normal && c.events.read

abbrev pub writes : Chan → Bool
writes c = eq_ℤ c.index normal && c.events.write

-- One round of the loop of `reset`, which does nothing for a channel whose status is not `normal`.
unfoldable pub add_channel : Chan → Sets → Result Sets
add_channel c s = do
  rset ← fd_set_if (reads c) c.fd s.rset
  eset ← fd_set_if (reads c) c.fd s.eset
  wset ← fd_set_if (writes c) c.fd s.wset
  ok (record {
    rset = rset;
    wset = wset;
    eset = eset;
    maxfd = if is_watched c then max_fd c.fd s.maxfd else s.maxfd;
  })

abbrev pub counted : Chan → ℕ → ℕ
counted c count = if is_watched c then suc count else count

-- The loop ends when `FD_SETSIZE` channels are watched.
unfoldable pub reset_from : List Chan → ℕ → Sets → Result Sets
unfolding add_channel
reset_from [] count s = ok s
reset_from (c ∷ cs) count s = do
  s' ← add_channel c s
  (let rest = reset_from cs (counted c count) s' in
      if is_watched c && leb fd_setsize (counted c count) then ok s' else rest)

abbrev pub no_sets : Sets
no_sets = record { rset = []; wset = []; eset = []; maxfd = negsuc 0 }

unfoldable pub reset : List Chan → Result Sets
unfolding reset_from
reset cs = reset_from cs 0 no_sets

pub record Timeval : Type 0 where
  pub tv_sec : ℕ
  pub tv_usec : ℕ

-- `maxfd + 1`
abbrev nfds : ℤ → ℕ
nfds (pos m) = suc m
nfds (negsuc m) = 0

-- What `select` is called with: the number of descriptors, the sets and the time.
unfoldable pub do_poll : List Chan → ℕ → Result (ℕ × Sets × Timeval)
unfolding reset
do_poll cs timeout = do
  s ← reset cs
  ok (nfds s.maxfd, s, record { tv_sec = timeout / 1000; tv_usec = timeout % 1000 * 1000 })

-- `Channel::ReadEvent`, `Channel::WriteEvent`, or both.
abbrev pub revents_of : Bool → Bool → Revents
revents_of isread iswrite = record {
  poll_in = isread;
  poll_pri = isread;
  poll_out = iswrite;
  poll_err = false;
  poll_hup = false;
  poll_nval = false;
  poll_rdhup = false;
}

abbrev pub came_read : Sets → Chan → Bool
came_read s c = is_set s.rset c.fd || is_set s.eset c.fd

abbrev pub came_write : Sets → Chan → Bool
came_write s c = is_set s.wset c.fd

abbrev pub is_active : Sets → Chan → Bool
is_active s c = came_read s c || came_write s c

-- The sets are those that `select` left; the loop ends when `count` channels are found.
unfoldable pub fill_active_channels : List Chan → Sets → ℕ → List (Chan × Revents)
fill_active_channels [] s count = []
fill_active_channels (c ∷ cs) s zero = []
fill_active_channels (c ∷ cs) s (suc count) =
    let rest = fill_active_channels cs s (if is_active s c then count else suc count) in
    if is_active s c then (c, revents_of (came_read s c) (came_write s c)) ∷ rest else rest
