-- ===== src/Examples/Hub/Tests.antt =====
-- examples/hub: two connections that subscribe to a topic, of which one closes.
use sevent.Base.{ℕ, ◌≡◌, refl, true, List, [], ◌∷◌, ◌++◌, some}
use sevent.Examples.Hub.{
  Hub, Reachable, created, received, create_hub, has, get_topic, on_message, on_close,
  parse_message, parse_success, make_msg, pub_cmd, do_subscribe,
}
use sevent.Examples.Hub.Closing.{close-subscribers}
use sevent.Examples.Hub.Parsing.{parse_message-make_msg}

-- "sub a", and its CRLF
abbrev sub_a : List ℕ
sub_a = b's' ∷ b'u' ∷ b'b' ∷ 32 ∷ b'a' ∷ 13 ∷ 10 ∷ []

abbrev topic_a : List ℕ
topic_a = b'a' ∷ []

abbrev one_in : Hub
unfolding do_subscribe
one_in = (do_subscribe create_hub 1 topic_a).0

abbrev two_in : Hub
unfolding do_subscribe
two_in = (do_subscribe one_in 2 topic_a).0

one_subscribes : on_message create_hub 1 sub_a ≡ some (one_in, [], [])
unfolding on_message one_in parse_message
one_subscribes = refl

two_subscribe : on_message one_in 2 sub_a ≡ some (two_in, [], [])
unfolding on_message one_in two_in parse_message
two_subscribe = refl

two_in-Reachable : Reachable two_in
two_in-Reachable =
    received 2 sub_a [] [] (received 1 sub_a [] [] created one_subscribes) two_subscribe

close-subscribers_example : has (get_topic (on_close two_in 2).topics topic_a).subs 1 ≡ true
unfolding two_in one_in
close-subscribers_example = close-subscribers two_in two_in-Reachable 2 1 topic_a

parse_message-make_msg_example :
    parse_message (make_msg topic_a (b'h' ∷ b'i' ∷ []) ++ sub_a)
    ≡ parse_success pub_cmd topic_a (b'h' ∷ b'i' ∷ []) sub_a
parse_message-make_msg_example = parse_message-make_msg topic_a (b'h' ∷ b'i' ∷ []) sub_a refl refl
