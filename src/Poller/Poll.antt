-- ===== src/Poller/Poll.antt =====
-- sevent/net/poller/PollPoller.cpp: the list of `pollfd`s, in which a channel has its index.
pub mod Registered
pub mod Removed
pub mod Active
use sevent.Base.{
  ℕ, zero, suc, ◌-◌, ◌≡◌, Bool, true, false, not, ◌&&◌, ◌||◌, Option, none, some, List, [], ◌∷◌,
  ◌++◌, ltb, ◌==◌, length, take, get_elem?, set, if◌then◌else◌, Result, ok, err, ◌>>=◌, assertion,
  out_of_bounds,
}
use sevent.Base.Int.{ℤ, pos, negsuc, flip, is_neg, eq_ℤ}
use sevent.Channel.{Events, is_none_event}
use sevent.Poller.{Chan, lookup, erase, insert, is_absent, is_mapped}

-- `revents` is 0 or the bits that came, as a number.
pub record Pollfd : Type 0 where
  pub fd : ℤ
  pub events : Events
  pub revents : ℕ

pub record PollPoller : Type 0 where
  pub pollfd_list : List Pollfd
  pub channel_map : List (ℕ × ℕ)

-- `pollfdList[index]`
abbrev pub at : PollPoller → ℤ → Option Pollfd
at p (pos index) = get_elem? p.pollfd_list index
at p (negsuc index) = none

abbrev pub position : ℤ → ℕ
position (pos index) = index
position (negsuc index) = 0

-- `pfd.fd == channel->getFd() || pfd.fd == -channel->getFd() - 1`
abbrev pub is_of : Chan → Pollfd → Bool
is_of c pfd = eq_ℤ pfd.fd (pos c.fd) || eq_ℤ pfd.fd (negsuc c.fd)

-- `poll` ignores a negative descriptor.
abbrev pub wanted : Chan → Pollfd
wanted c = record {
  fd = if is_none_event c.events then negsuc c.fd else pos c.fd;
  events = c.events;
  revents = 0;
}

unfoldable pub add_channel : PollPoller → Chan → Result (PollPoller × Chan)
add_channel p c =
    if is_absent p.channel_map c.fd
    then ok (
      record {
        pollfd_list =
            p.pollfd_list ++ record { fd = pos c.fd; events = c.events; revents = 0 } ∷ [];
        channel_map = insert p.channel_map c.fd c.id;
      },
      record c { index = pos (length p.pollfd_list) },
    )
    else err assertion

unfoldable pub change : PollPoller → Chan → Option Pollfd → Result (PollPoller × Chan)
change p c none = err assertion
change p c (some pfd) =
    if is_of c pfd
    then ok (record p { pollfd_list = set p.pollfd_list (position c.index) (wanted c) }, c)
    else err assertion

unfoldable pub update_channel : PollPoller → Chan → Result (PollPoller × Chan)
unfolding add_channel change
update_channel p c =
    if is_neg c.index
    then add_channel p c
    else if is_mapped p.channel_map c
    then change p c (at p c.index)
    else err assertion

abbrev pub pop_back : List Pollfd → List Pollfd
pop_back pfds = take (length pfds - 1) pfds

abbrev pub last? : List Pollfd → Option Pollfd
last? pfds = get_elem? pfds (length pfds - 1)

-- `std::swap` with the last element, and `pop_back`.
abbrev pub swap_out : List Pollfd → ℕ → Option Pollfd → List Pollfd
swap_out pfds index none = pfds
swap_out pfds index (some pfd) = pop_back (set pfds index pfd)

-- The index that is set is that of the channel that leaves.
unfoldable pub take_out : PollPoller → Chan → ℕ → Option Pollfd → Result (PollPoller × Chan)
take_out p c index none = err out_of_bounds
take_out p c index (some pfd) =
    if is_of c pfd
    then (if index == length p.pollfd_list - 1
        then ok (
          record { pollfd_list = pop_back p.pollfd_list; channel_map = erase p.channel_map c.fd },
          c,
        )
        else ok (
          record {
            pollfd_list = swap_out p.pollfd_list index (last? p.pollfd_list);
            channel_map = erase p.channel_map c.fd;
          },
          record c { index = pos index },
        ))
    else err assertion

unfoldable pub remove_channel : PollPoller → Chan → Result (PollPoller × Chan)
unfolding take_out
remove_channel p c =
    if is_neg c.index then ok (p, c) else take_out p c (position c.index) (at p c.index)

abbrev pub find_fd : List (ℕ × ℕ) → ℤ → Option ℕ
find_fd entries (pos fd) = lookup entries fd
find_fd entries (negsuc fd) = none

abbrev pub with_found : Option ℕ → ℕ → Result (List (ℕ × ℕ)) → Result (List (ℕ × ℕ))
with_found none revents rest = err assertion
with_found (some id) revents rest = do active ← rest; ok ((id, revents) ∷ active)

-- `fillActiveChannels`: the channels for which `revents` came, with these, until `count` are found.
unfoldable pub fill_active_channels : List (ℕ × ℕ) → List Pollfd → ℕ → Result (List (ℕ × ℕ))
fill_active_channels entries [] count = ok []
fill_active_channels entries (pfd ∷ pfds) zero = ok []
fill_active_channels entries (pfd ∷ pfds) (suc count) =
    let rest = fill_active_channels entries pfds (if pfd.revents == 0 then suc count else count) in
    if pfd.revents == 0 then rest else with_found (find_fd entries pfd.fd) pfd.revents rest
