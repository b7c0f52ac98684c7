-- ===== src/Poller/Poll/Active.antt =====
-- sevent/net/poller/PollPoller.cpp: which channels `fillActiveChannels` finds.
use sevent.Base.{
  ℕ, zero, suc, ◌≤◌, ◌≡◌, refl, sym, ◌∙◌, inl, inr, Bool-cases, ap, some-injective, bind_option,
  bind_option-eq-some, Option, none, some, List, [], ◌∷◌, ◌==◌, if◌then◌else◌, arith, ok,
}
use sevent.Poller.Poll.{Pollfd, find_fd, fill_active_channels, with_found}

-- How many `revents` are not 0: what `poll` returns.
abbrev pub number_ready : List Pollfd → ℕ
number_ready [] = 0
number_ready (pfd ∷ pfds) = if pfd.revents == 0 then number_ready pfds else suc (number_ready pfds)

-- The channels of the `pollfd`s whose `revents` are not 0, with these; `none` if one is not mapped.
abbrev pub and_found : Option ℕ → ℕ → List (ℕ × ℕ) → Option (List (ℕ × ℕ))
and_found none revents active = none
and_found (some id) revents active = some ((id, revents) ∷ active)

abbrev pub reported : List (ℕ × ℕ) → List Pollfd → Option (List (ℕ × ℕ))
reported entries [] = some []
reported entries (pfd ∷ pfds) =
    let rest = reported entries pfds in
    if pfd.revents == 0
    then rest
    else bind_option rest (and_found (find_fd entries pfd.fd) pfd.revents)

none_ready :
    (entries : List (ℕ × ℕ)) (pfds : List Pollfd)
    → number_ready pfds ≡ 0
    → reported entries pfds ≡ some []
none_ready entries [] h = refl
none_ready entries (pfd ∷ pfds) h = ground (arith, h, none_ready entries pfds)

found_lem :
    (o : Option ℕ) (revents : ℕ) (rest : List (ℕ × ℕ)) {active : List (ℕ × ℕ)}
    → and_found o revents rest ≡ some active
    → with_found o revents (ok rest) ≡ ok active
found_lem none revents rest h = cc
found_lem (some id) revents rest h = ap ok (some-injective h)

-- Given at least the count that `poll` returned, `fillActiveChannels` finds exactly the channels whose
-- events came, in the order of the list, if each is in the map.
pub fill_active_channels_lem :
    (entries : List (ℕ × ℕ)) (pfds : List Pollfd) (count : ℕ) (active : List (ℕ × ℕ))
    → number_ready pfds ≤ count
    → reported entries pfds ≡ some active
    → fill_active_channels entries pfds count ≡ ok active
unfolding fill_active_channels
fill_active_channels_lem entries [] count active h r = ap ok (some-injective r)
fill_active_channels_lem entries (pfd ∷ pfds) zero active h r =
    ap ok (some-injective (sym (none_ready entries (pfd ∷ pfds) (omega (arith, h))) ∙ r))
fill_active_channels_lem entries (pfd ∷ pfds) (suc count) active h r =
    elim (Bool-cases (pfd.revents == 0)) [
      | inl quiet ↦ rw quiet (
          fill_active_channels_lem entries pfds (suc count) active (ground (arith, h, quiet))
            (ground (arith, r, quiet)))
      | inr came ↦
          let next = and_found (find_fd entries pfd.fd) pfd.revents in
          let whole : bind_option (reported entries pfds) next ≡ some active =
            ground (arith, r, came) in
          let (rest, behind, added) = bind_option-eq-some (reported entries pfds) next whole in
          rw
            (
              came,
              fill_active_channels_lem entries pfds count rest (ground (arith, h, came)) behind,
            )
            (found_lem (find_fd entries pfd.fd) pfd.revents rest added)
    ]
