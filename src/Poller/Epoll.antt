-- ===== src/Poller/Epoll.antt =====
-- sevent/net/poller/EpollPoller.cpp: the status of a channel, and the calls of `epoll_ctl`.
pub mod Watched
use sevent.Base.{
  ℕ, ◌*◌, ◌≡◌, ◌⊎◌, inl, inr, Bool-cases, Option-cases, ◌∙◌, bind_option, refl, Bool, true, false,
  Option, none, some, List, [], ◌∷◌, ◌++◌, arith, ◌==◌, length, replicate, if◌then◌else◌, Result,
  ok, err, ◌>>=◌, assertion, map,
}
use sevent.Base.Int.{ℤ, pos, negsuc, eq_ℤ}
use sevent.Channel.{Events, is_none_event, none_event}
use sevent.Poller.{
  Chan, lookup, erase, insert, is_absent, is_mapped, lookup-erase, lookup-erase_other,
}

-- Not in `channelMap`; in it and watched; in it and not watched.
abbrev pub ready : ℤ
ready = negsuc 0

abbrev pub normal : ℤ
normal = pos 1

abbrev pub removed : ℤ
removed = pos 2

-- A call of `epoll_ctl` on the descriptor of a channel.
pub data Ctl : Type 0 where
  ctl_add ctl_mod ctl_del : ℕ → Events → Ctl

unfoldable pub update_channel : List (ℕ × ℕ) → Chan → Result (List (ℕ × ℕ) × Chan × List Ctl)
update_channel entries c =
    if eq_ℤ c.index ready
    then if is_absent entries c.fd
      then ok (insert entries c.fd c.id, record c { index = normal }, ctl_add c.fd c.events ∷ [])
      else err assertion
    else if eq_ℤ c.index normal
    then if is_mapped entries c
      then if is_none_event c.events
        then ok (entries, record c { index = removed }, ctl_del c.fd c.events ∷ [])
        else ok (entries, c, ctl_mod c.fd c.events ∷ [])
      else err assertion
    else ok (entries, record c { index = normal }, ctl_add c.fd c.events ∷ [])

unfoldable pub remove_channel : List (ℕ × ℕ) → Chan → List (ℕ × ℕ) × Chan × List Ctl
remove_channel entries c = (
  erase entries c.fd,
  record c { index = ready },
  if eq_ℤ c.index normal then ctl_del c.fd c.events ∷ [] else [],
)

-- `fillActiveChannels`: the channels of the events that came, and the event list, which is doubled
-- when it was full.
unfoldable pub fill_active_channels : List (ℕ × ℕ) → ℕ → List (ℕ × ℕ) × ℕ
fill_active_channels came size = (came, if length came == size then size * 2 else size)

-- What the manual of `epoll_ctl` says of one descriptor: an add fails if it is watched already, and a
-- change or a removal if it is not. `none` is such an error.
abbrev pub watch : Ctl → Option Events → Option (Option Events)
watch (ctl_add fd e) none = some (some e)
watch (ctl_mod fd e) (some _) = some (some e)
watch (ctl_del fd e) (some _) = some none
watch _ _ = none

abbrev pub watch_all : List Ctl → Option Events → Option (Option Events)
watch_all [] w = some w
watch_all (c ∷ ctls) w = bind_option (watch c w) (watch_all ctls)

-- What the owner of a channel does with it.
pub data Op : Type 0 where
  updates : Events → Op
  removes : Op

unfoldable pub apply : List (ℕ × ℕ) → Chan → Op → Result (List (ℕ × ℕ) × Chan × List Ctl)
unfolding update_channel remove_channel
apply entries c (updates e) = update_channel entries (record c { events = e })
apply entries c removes = ok (remove_channel entries (record c { events = none_event }))

unfoldable pub apply_all : List (ℕ × ℕ) → Chan → List Op → Result (List (ℕ × ℕ) × Chan × List Ctl)
apply_all entries c [] = ok (entries, c, [])
apply_all entries c (op ∷ ops) = do
  (entries', c', ctls) ← apply entries c op
  (entries'', c'', more) ← apply_all entries' c' ops
  ok (entries'', c'', ctls ++ more)
