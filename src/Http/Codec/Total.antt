-- ===== src/Http/Codec/Total.antt =====
-- sevent/net/http/HttpCodec.cpp: the loop over the input ends.
use sevent.Base.{
  ℕ, zero, suc, ◌<◌, ◌≤◌, ◌≡◌, refl, Bool, true, false, ◌||◌, ◌==◌, ◌⊎◌, inl, inr, Bool-cases, some,
  List, [], ◌∷◌, ◌++◌, length, length-drop, drop, arith, if◌then◌else◌,
}
use sevent.Http.{HttpParser, execute, reset, create_parser}
use sevent.Http.Codec.{
  Answer, Codec, is_complete, tells_eof, parse, collect, turn, parse_loop, pass_on, on_message,
}
use sevent.Http.Codec.Stream.{completes, is_complete-execute}

-- Where it completes a message, it took a byte.
abbrev pub TakesByte : Answer → Type 0
TakesByte a = (1 ≤ a.count) ⊎ ((completes a.events ≡ false) × (completes a.eof ≡ false))

is_complete-parse :
    (closing : Bool) (p : HttpParser) (a : Answer)
    → is_complete (parse closing p a)
      ≡ (if tells_eof closing a then completes a.eof else completes a.events)
unfolding parse
is_complete-parse closing p a = elim (Bool-cases (tells_eof closing a)) [
  | inl e ↦ rw e (is_complete-execute (execute p a.count a.events) 0 a.eof)
  | inr e ↦ rw e (is_complete-execute p a.count a.events)
]

complete_takes :
    (closing : Bool) (p : HttpParser) (a : Answer)
    → TakesByte a
    → is_complete (parse closing p a) ≡ true
    → 1 ≤ a.count
complete_takes closing p a (inl t) c = t
complete_takes closing p a (inr (f, g)) c =
    absurd (ground (arith, is_complete-parse closing p a, c, f, g))

-- A turn ends the loop or makes the input shorter.
turn-shorter :
    (answer : List ℕ → Answer) (closing : Bool) (s : Codec)
    → TakesByte (answer s.input)
    → 1 ≤ length s.input
    → (s' : Codec) × ((turn answer closing s ≡ (s', false))
        ⊎ ((turn answer closing s ≡ (s', true)) × (length s'.input < length s.input)))
unfolding turn collect
turn-shorter answer closing s t n =
    let a = answer s.input in
    let p = parse closing s.parser a in
    let e = is_complete-parse closing s.parser a in
    elim (Bool-cases (is_complete p)) [
      | inl whole ↦ (
        record s {
          parser = create_parser s.is_request;
          input = drop a.count s.input;
          parser_list = s.parser_list ++ p ∷ [];
        },
        inr (
          rw whole refl,
          omega (arith, length-drop a.count s.input, complete_takes closing s.parser a t whole),
        ),
      )
      | inr part ↦ (
        record s {
          parser = reset p;
          is_shut = s.is_shut || (if tells_eof closing a then a.eof_error else a.error);
        },
        inl (rw part refl),
      )
    ]

loop_total :
    (answer : List ℕ → Answer) (closing : Bool)
    → ((xs : List ℕ) → TakesByte (answer xs))
    → (fuel : ℕ) (s : Codec) → length s.input < fuel
    → (s' : Codec) × (parse_loop fuel answer closing s ≡ some s')
unfolding parse_loop
loop_total answer closing t zero s f = absurd (omega arith)
loop_total answer closing t (suc fuel) s f = elim (Bool-cases (length s.input == 0)) [
  | inl empty ↦ (s, simp empty)
  | inr e ↦
      let (s', step) = turn-shorter answer closing s (t s.input) (ground (arith, e)) in
      elim step [
        | inl ends ↦ (s', simp (e, ends))
        | inr (goes, shorter) ↦
            let (s'', done) = loop_total answer closing t fuel s' (omega arith) in
            (s'', simp (e, goes, done))
      ]
]

-- If the vendored parser never completes a message without taking a byte, then onMessage returns,
-- whatever the input, at a close or not.
pub on_message_total :
    (answer : List ℕ → Answer) (r closing : Bool) (p : HttpParser) (input : List ℕ)
    → ((xs : List ℕ) → TakesByte (answer xs))
    → (s : Codec) × (on_message answer r closing p input ≡ some (s, pass_on s))
unfolding on_message
on_message_total answer r closing p input t =
    let start : Codec = record {
      is_request = r;
      parser = p;
      input = input;
      parser_list = [];
      is_shut = false;
    } in
    let (s, done) = loop_total answer closing t (suc (length input)) start (omega arith) in
    (s, rw done refl)
