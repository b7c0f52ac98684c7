-- ===== src/Poller/Poll/Registered.antt =====
-- sevent/net/poller/PollPoller.cpp: the `pollfd` of a channel that is registered.
use sevent.Base.{
  ℕ, ◌<◌, ◌≡◌, inl, inr, refl, ◌∙◌, true, false, Bool-cases, none, some, List, [], ◌∷◌, ◌++◌, ◌==◌,
  length, get_elem?, set, arith, ok, get_elem?-lt, get_elem?-set, get_elem?-set_other,
  get_elem?-append, get_elem?-append_length, ==_iff,
}
use sevent.Base.Int.{pos, is_neg}
use sevent.Channel.{Events}
use sevent.Poller.{Chan, lookup, insert, lookup-erase_other}
use sevent.Poller.Poll.{Pollfd, PollPoller, wanted, is_of, update_channel, add_channel, change}

-- The channel is in the map, and its index is that of a `pollfd` of its own.
pub record IsRegistered (p : PollPoller) (c : Chan) : Type 0 where
  pub i : ℕ
  pub pfd : Pollfd
  pub indexed : c.index ≡ pos i
  pub found : get_elem? p.pollfd_list i ≡ some pfd
  pub own : is_of c pfd ≡ true
  pub mapped : lookup p.channel_map c.fd ≡ some c.id

-- An update of a registered channel keeps it registered, writes what it asks for into its `pollfd`, with
-- a negative descriptor if it asks for nothing, and leaves the other `pollfd`s and the map alone.
pub update_channel-IsRegistered :
    {p : PollPoller} {c : Chan} (e : Events) (j : ℕ)
    → (r : IsRegistered p c) → (j == r.i) ≡ false
    → (p' : PollPoller) × (update_channel p (record c { events = e })
        ≡ ok (p', record c { events = e }))
      × IsRegistered p' (record c { events = e })
      × (get_elem? p'.pollfd_list r.i ≡ some (wanted (record c { events = e })))
      × (get_elem? p'.pollfd_list j ≡ get_elem? p.pollfd_list j)
      × (p'.channel_map ≡ p.channel_map)
unfolding update_channel change
update_channel-IsRegistered {p} {c} e j r other =
    let inside : r.i < length p.pollfd_list = get_elem?-lt p.pollfd_list r.i r.found in
    let c' : Chan = record c { events = e } in
    let p' : PollPoller = record p { pollfd_list = set p.pollfd_list r.i (wanted c') } in
    (
      p',
      simp (r.indexed, r.found, r.own, r.mapped, (==_iff c.id c.id).1 refl) refl,
      record {
        i = r.i;
        pfd = wanted c';
        indexed = r.indexed;
        found = get_elem?-set p.pollfd_list r.i (wanted c') inside;
        own = ground arith;
        mapped = r.mapped;
      },
      get_elem?-set p.pollfd_list r.i (wanted c') inside,
      get_elem?-set_other p.pollfd_list r.i j (wanted c') other,
      refl,
    )

apart_fds :
    (entries : List (ℕ × ℕ)) (a b : ℕ) {id : ℕ}
    → lookup entries a ≡ none
    → lookup entries b ≡ some id
    → (a == b) ≡ false
apart_fds entries a b {id} absent there = elim (Bool-cases (a == b)) [
  | inr differ ↦ differ
  | inl same ↦
      let h : lookup entries a ≡ some id = rw ((==_iff a b).0 same) there in
      absurd (ground (arith, h, absent))
]

-- A new channel whose descriptor is not in the map is registered at the end, and every other channel
-- stays registered where it was.
pub add_channel-IsRegistered :
    {p : PollPoller} (c d : Chan)
    → is_neg c.index ≡ true
    → lookup p.channel_map c.fd ≡ none
    → IsRegistered p d
    → (p' : PollPoller) × (c' : Chan) × (update_channel p c ≡ ok (p', c'))
      × IsRegistered p' c'
      × IsRegistered p' d
unfolding update_channel add_channel
add_channel-IsRegistered {p} c d new absent r =
    let pfd : Pollfd = record { fd = pos c.fd; events = c.events; revents = 0 } in
    let apart : (c.fd == d.fd) ≡ false = apart_fds p.channel_map c.fd d.fd absent r.mapped in
    (
      record {
        pollfd_list = p.pollfd_list ++ pfd ∷ [];
        channel_map = insert p.channel_map c.fd c.id;
      },
      record c { index = pos (length p.pollfd_list) },
      simp (new, absent) refl,
      record {
        i = length p.pollfd_list;
        pfd = pfd;
        indexed = refl;
        found = get_elem?-append_length p.pollfd_list pfd [];
        own = ground arith;
        mapped = ground arith;
      },
      record {
        i = r.i;
        pfd = r.pfd;
        indexed = r.indexed;
        found =
            get_elem?-append p.pollfd_list (pfd ∷ []) r.i (get_elem?-lt p.pollfd_list r.i r.found)
            ∙ r.found;
        own = r.own;
        mapped = rw apart (lookup-erase_other p.channel_map c.fd d.fd apart ∙ r.mapped);
      },
    )
