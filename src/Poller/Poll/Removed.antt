-- ===== src/Poller/Poll/Removed.antt =====
-- sevent/net/poller/PollPoller.cpp: what `removeChannel` leaves behind.
use sevent.Base.{
  ℕ, zero, suc, ◌-◌, ◌<◌, ◌≤◌, ◌≡◌, refl, ◌∙◌, inl, inr, true, false, Bool-cases, none, some, List,
  [], ◌∷◌, ◌==◌, length, get_elem?, set, arith, ok, err, assertion, out_of_bounds, if◌then◌else◌,
  get_elem?-lt, get_elem?-take, length-take, length-set, ==_iff,
}
use sevent.Poller.{Chan, lookup, erase, lookup-erase, lookup-erase_other}
use sevent.Poller.Poll.{
  Pollfd, PollPoller, update_channel, change, remove_channel, take_out, pop_back, swap_out, last?,
}
use sevent.Poller.Poll.Registered.{IsRegistered}

-- The `pollfd`s after the removal at `index`.
abbrev without : List Pollfd → ℕ → List Pollfd
without pfds index =
    if index == length pfds - 1 then pop_back pfds else swap_out pfds index (last? pfds)

pub remove_registered :
    {p : PollPoller} {c : Chan}
    → (r : IsRegistered p c)
    → remove_channel p c
      ≡ ok (
        record { pollfd_list = without p.pollfd_list r.i; channel_map = erase p.channel_map c.fd },
        c,
      )
unfolding remove_channel take_out
remove_registered {p} {c} r = simp (r.indexed, r.found, r.own) (ground (arith, r.indexed))

get_elem?-end : {A : Type 0} (xs : List A) (i : ℕ) → length xs ≤ i → get_elem? xs i ≡ none
get_elem?-end [] i h = refl
get_elem?-end (x ∷ xs) zero h = absurd (omega arith)
get_elem?-end (x ∷ xs) (suc i) h = get_elem?-end xs i (omega arith)

last_some : {A : Type 0} (x : A) (xs : List A) → (y : A) × (get_elem? (x ∷ xs) (length xs) ≡ some y)
last_some x [] = (x, refl)
last_some x (z ∷ xs) = last_some z xs

length-without :
    (pfds : List Pollfd) (i : ℕ) → i < length pfds → suc (length (without pfds i)) ≡ length pfds
length-without [] i h = absurd (omega arith)
length-without (x ∷ xs) i h =
    let all : List Pollfd = x ∷ xs in
    let (y, found) = last_some x xs in
    let end : length all - 1 ≡ length xs = omega arith in
    let there : get_elem? all (length all - 1) ≡ some y = rw end found in
    let size : length (set all i y) ≡ length all = length-set all i y in
    elim (Bool-cases (i == length all - 1)) [
      | inl last ↦ rw last (omega (arith, length-take (length all - 1) all))
      | inr before ↦
          rw (before, there)
            (omega (arith, length-take (length (set all i y) - 1) (set all i y), size))
    ]

-- A channel that is registered before the end leaves, and the channel of the last `pollfd` takes its
-- place without being told: its index is past the end from then on, so that its next update fails
-- an assert, and its own removal reads out of bounds.
pub stale_index :
    {p : PollPoller} {c d : Chan}
    → (r : IsRegistered p c) → (s : IsRegistered p d) → (c.fd == d.fd) ≡ false
    → suc s.i ≡ length p.pollfd_list
    → (p' : PollPoller) × (remove_channel p c ≡ ok (p', c))
      × (update_channel p' d ≡ err assertion)
      × (remove_channel p' d ≡ err out_of_bounds)
unfolding update_channel change remove_channel take_out
stale_index {p} {c} {d} r s apart end =
    let inside : r.i < length p.pollfd_list = get_elem?-lt p.pollfd_list r.i r.found in
    let short : suc (length (without p.pollfd_list r.i)) ≡ length p.pollfd_list =
      length-without p.pollfd_list r.i inside in
    let gone : get_elem? (without p.pollfd_list r.i) s.i ≡ none =
      get_elem?-end (without p.pollfd_list r.i) s.i (omega arith) in
    let mapped : lookup (erase p.channel_map c.fd) d.fd ≡ some d.id =
      lookup-erase_other p.channel_map c.fd d.fd apart ∙ s.mapped in
    (
      _,
      remove_registered r,
      simp (s.indexed, gone, mapped, (==_iff d.id d.id).1 refl) refl,
      simp (s.indexed, gone) refl,
    )

-- A registered channel that leaves keeps its index: no update registers it again.
pub removed_stays_out :
    {p : PollPoller} {c : Chan}
    → (r : IsRegistered p c)
    → (p' : PollPoller) × (remove_channel p c ≡ ok (p', c)) × (update_channel p' c ≡ err assertion)
unfolding update_channel
removed_stays_out {p} {c} r =
    (_, remove_registered r, simp (r.indexed, lookup-erase p.channel_map c.fd) refl)

-- If the channel of the last `pollfd` leaves, then every other channel stays registered.
pub remove_last :
    {p : PollPoller} {c : Chan} (d : Chan)
    → (r : IsRegistered p c) → (s : IsRegistered p d) → (c.fd == d.fd) ≡ false
    → suc r.i ≡ length p.pollfd_list
    → (s.i == r.i) ≡ false
    → (p' : PollPoller) × (remove_channel p c ≡ ok (p', c)) × IsRegistered p' d
remove_last {p} {c} d r s apart end other =
    let inside : s.i < length p.pollfd_list = get_elem?-lt p.pollfd_list s.i s.found in
    let last : (r.i == length p.pollfd_list - 1) ≡ true = ground (arith, end) in
    (
      _,
      remove_registered r,
      record {
        i = s.i;
        pfd = s.pfd;
        indexed = s.indexed;
        found = rw last (
            get_elem?-take (length p.pollfd_list - 1) s.i p.pollfd_list
              (ground (arith, inside, end, other))
            ∙ s.found);
        own = s.own;
        mapped = lookup-erase_other p.channel_map c.fd d.fd apart ∙ s.mapped;
      },
    )
