-- ===== src/Poller.antt =====
-- sevent/net/Poller.h and sevent/net/poller: what the pollers share, the channel and the map from a
-- descriptor to its channel. A `Channel *` is a number, `id`.
pub mod Epoll
pub mod Poll
pub mod Select
mod Tests
use sevent.Base.{
  ℕ, ◌≡◌, ◌⊎◌, inl, inr, refl, Bool, true, false, Option, none, some, List, [], ◌∷◌, arith, ◌==◌,
  if◌then◌else◌,
}
use sevent.Base.Int.{ℤ}
use sevent.Channel.{Events}

-- `index` is the position in `pollfdList` for poll, and the status for epoll and select.
pub record Chan : Type 0 where
  pub id : ℕ
  pub fd : ℕ
  pub index : ℤ
  pub events : Events

-- `std::map<socket_t, Channel *>`: `find`, `erase` and the assignment to `channelMap[fd]`.
abbrev pub lookup : List (ℕ × ℕ) → ℕ → Option ℕ
lookup [] fd = none
lookup ((key, id) ∷ entries) fd = if key == fd then some id else lookup entries fd

abbrev pub erase : List (ℕ × ℕ) → ℕ → List (ℕ × ℕ)
erase [] fd = []
erase ((key, id) ∷ entries) fd =
    if key == fd then erase entries fd else (key, id) ∷ erase entries fd

abbrev pub insert : List (ℕ × ℕ) → ℕ → ℕ → List (ℕ × ℕ)
insert entries fd id = (fd, id) ∷ erase entries fd

-- `assert(channelMap.find(fd) == channelMap.end())`, and the two asserts on a channel that is there.
abbrev pub is_none : Option ℕ → Bool
is_none none = true
is_none (some _) = false

abbrev pub is_some_of : ℕ → Option ℕ → Bool
is_some_of id none = false
is_some_of id (some id') = id' == id

abbrev pub is_absent : List (ℕ × ℕ) → ℕ → Bool
is_absent entries fd = is_none (lookup entries fd)

abbrev pub is_mapped : List (ℕ × ℕ) → Chan → Bool
is_mapped entries c = is_some_of c.id (lookup entries c.fd)

pub lookup-erase : (entries : List (ℕ × ℕ)) (fd : ℕ) → lookup (erase entries fd) fd ≡ none
lookup-erase [] fd = refl
lookup-erase ((key, id) ∷ entries) fd = ground (arith, lookup-erase entries fd)

pub lookup-erase_other :
    (entries : List (ℕ × ℕ)) (fd other : ℕ)
    → (fd == other) ≡ false
    → lookup (erase entries fd) other ≡ lookup entries other
lookup-erase_other [] fd other h = refl
lookup-erase_other ((key, id) ∷ entries) fd other h =
    ground (arith, lookup-erase_other entries fd other h)
