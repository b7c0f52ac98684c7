-- ===== src/Examples/Hub.antt =====
-- examples/hub/hubCodec.cpp and examples/hub/hub.cpp: a hub that passes on what is published under a
-- topic. The input of a connection is the readable bytes of its buffer, a connection is a number, and a
-- set is a list without repetitions.
pub mod Parsing
pub mod Subscribed
pub mod Closing
pub mod Total
mod Tests
use sevent.Base.{
  ℕ, ◌≡◌, zero, suc, ◌+◌, Bool, true, false, not, ◌&&◌, ◌||◌, Option, none, some, List, [], ◌∷◌,
  ◌++◌, ◌==◌, bind_option, map, length, if◌then◌else◌,
}
use sevent.Http.{cut, add_before}

-- `findCRLF`, and what is before and behind it.
abbrev pub cut_crlf : List ℕ → Option (List ℕ × List ℕ)
cut_crlf [] = none
cut_crlf (x ∷ []) = none
cut_crlf (x ∷ y ∷ xs) =
    let later = add_before x (cut_crlf (y ∷ xs)) in
    if (x == 13) && (y == 10) then some ([], xs) else later

abbrev pub same_text : List ℕ → List ℕ → Bool
same_text [] [] = true
same_text (x ∷ xs) (y ∷ ys) = (x == y) && same_text xs ys
same_text _ _ = false

-- "pub"
abbrev pub pub_cmd : List ℕ
pub_cmd = b'p' ∷ b'u' ∷ b'b' ∷ []

abbrev pub sub_cmd : List ℕ
sub_cmd = b's' ∷ b'u' ∷ b'b' ∷ []

abbrev pub unsub_cmd : List ℕ
unsub_cmd = b'u' ∷ b'n' ∷ sub_cmd

-- A message has its command, its topic and its content, and what stays in the buffer.
pub data ParseResult : Type 0 where
  parse_error parse_continue : ParseResult
  parse_success : List ℕ → List ℕ → List ℕ → List ℕ → ParseResult

abbrev pub with_content : List ℕ → List ℕ → Option (List ℕ × List ℕ) → ParseResult
with_content cmd topic none = parse_continue
with_content cmd topic (some (content, rest)) = parse_success cmd topic content rest

abbrev pub with_line : List ℕ → Option (List ℕ × List ℕ) → ParseResult
with_line behind none = parse_error
with_line behind (some (cmd, topic)) =
    if same_text cmd pub_cmd
    then with_content cmd topic (cut_crlf behind)
    else parse_success cmd topic [] behind

abbrev pub with_crlf : Option (List ℕ × List ℕ) → ParseResult
with_crlf none = parse_continue
with_crlf (some (line, behind)) = with_line behind (cut 32 line)

unfoldable pub parse_message : List ℕ → ParseResult
parse_message input = with_crlf (cut_crlf input)

-- `lastPubTime` is 0 before the first publish.
pub record Topic : Type 0 where
  pub content : List ℕ
  pub is_published : Bool
  pub subs : List ℕ

-- `make_msg`: "pub ", the topic, and the content, each line with its CRLF.
unfoldable pub make_msg : List ℕ → List ℕ → List ℕ
make_msg topic content = pub_cmd ++ 32 ∷ (topic ++ 13 ∷ 10 ∷ (content ++ 13 ∷ 10 ∷ []))

pub record Hub : Type 0 where
  pub topics : List (List ℕ × Topic)
  pub subscription : ℕ → List (List ℕ)

pub data Effect : Type 0 where
  sends : ℕ → List ℕ → Effect
  shuts_down : ℕ → Effect

-- `std::set` of connections and of topics.
abbrev pub has : List ℕ → ℕ → Bool
has [] c = false
has (x ∷ xs) c = (x == c) || has xs c

abbrev pub add : List ℕ → ℕ → List ℕ
add xs c = if has xs c then xs else c ∷ xs

abbrev pub remove : List ℕ → ℕ → List ℕ
remove [] c = []
remove (x ∷ xs) c = let rest = remove xs c in if x == c then rest else x ∷ rest

abbrev pub has_name : List (List ℕ) → List ℕ → Bool
has_name [] n = false
has_name (x ∷ xs) n = same_text x n || has_name xs n

abbrev pub add_name : List (List ℕ) → List ℕ → List (List ℕ)
add_name xs n = if has_name xs n then xs else n ∷ xs

abbrev pub remove_name : List (List ℕ) → List ℕ → List (List ℕ)
remove_name [] n = []
remove_name (x ∷ xs) n = let rest = remove_name xs n in if same_text x n then rest else x ∷ rest

abbrev pub no_topic : Topic
no_topic = record { content = []; is_published = false; subs = [] }

-- `getTopic`, which makes a topic that is not there, and a change of the topic that it returns.
abbrev pub get_topic : List (List ℕ × Topic) → List ℕ → Topic
get_topic [] n = no_topic
get_topic ((name, t) ∷ topics) n = if same_text name n then t else get_topic topics n

abbrev pub put_topic : List (List ℕ × Topic) → List ℕ → Topic → List (List ℕ × Topic)
put_topic [] n t = (n, t) ∷ []
put_topic ((name, t') ∷ topics) n t =
    let rest = put_topic topics n t in
    if same_text name n then (name, t) ∷ topics else (name, t') ∷ rest

abbrev pub put_subscription : (ℕ → List (List ℕ)) → ℕ → List (List ℕ) → ℕ → List (List ℕ)
put_subscription subscription c names other = if other == c then names else subscription other

-- `doSubscribe`: the topic sends what was published last.
unfoldable pub do_subscribe : Hub → ℕ → List ℕ → Hub × List Effect
unfolding make_msg
do_subscribe h c topic =
    let t = get_topic h.topics topic in
    (
      record {
        topics = put_topic h.topics topic (record t { subs = add t.subs c });
        subscription = put_subscription h.subscription c (add_name (h.subscription c) topic);
      },
      if t.is_published then sends c (make_msg topic t.content) ∷ [] else [],
    )

unfoldable pub do_unsubscribe : Hub → ℕ → List ℕ → Hub
do_unsubscribe h c topic =
    let t = get_topic h.topics topic in
    record {
      topics = put_topic h.topics topic (record t { subs = remove t.subs c });
      subscription = put_subscription h.subscription c (remove_name (h.subscription c) topic);
    }

unfoldable pub do_publish : Hub → List ℕ → List ℕ → Hub × List Effect
unfolding make_msg
do_publish h topic content =
    let t = record (get_topic h.topics topic) { content = content; is_published = true } in
    (
      record h { topics = put_topic h.topics topic t },
      map (λ c. sends c (make_msg topic content)) t.subs,
    )

-- `onClose`, which goes through the set of the connection while its entries are erased.
unfoldable pub unsubscribe_all : Hub → ℕ → List (List ℕ) → Hub
unfolding do_unsubscribe
unsubscribe_all h c [] = h
unsubscribe_all h c (topic ∷ topics) = unsubscribe_all (do_unsubscribe h c topic) c topics

unfoldable pub on_close : Hub → ℕ → Hub
unfolding unsubscribe_all
on_close h c = unsubscribe_all h c (h.subscription c)

-- `onConnection` gives each connection an empty set.
abbrev pub create_hub : Hub
create_hub = record { topics = []; subscription = λ c. [] }

-- A message of a connection, and whether the loop goes on.
unfoldable pub handle : Hub → ℕ → List ℕ → List ℕ → List ℕ → Hub × List Effect × Bool
unfolding do_publish do_subscribe do_unsubscribe
handle h c cmd topic content =
    if same_text cmd pub_cmd
    then (let (h', es) = do_publish h topic content in (h', es, true))
    else if same_text cmd sub_cmd
    then (let (h', es) = do_subscribe h c topic in (h', es, true))
    else if same_text cmd unsub_cmd
    then (do_unsubscribe h c topic, [], true)
    else (h, shuts_down c ∷ [], false)

-- What a turn leaves, when the loop goes on with `next`.
abbrev pub after_handle :
    (Hub → List ℕ → Option (Hub × List Effect × List ℕ))
    → List ℕ
    → Hub × List Effect × Bool
    → Option (Hub × List Effect × List ℕ)
after_handle next rest (h, es, false) = some (h, es, rest)
after_handle next rest (h, es, true) = bind_option (next h rest) (λ r. some (r.0, es ++ r.1, r.2))

unfoldable pub with_result :
    (Hub → List ℕ → Option (Hub × List Effect × List ℕ))
    → Hub
    → ℕ
    → List ℕ
    → ParseResult
    → Option (Hub × List Effect × List ℕ)
unfolding handle
with_result next h c input parse_continue = some (h, [], input)
with_result next h c input parse_error = some (h, shuts_down c ∷ [], input)
with_result next h c input (parse_success cmd topic content rest) =
    after_handle next rest (handle h c cmd topic content)

-- `while (result == kSuccess)`: what stays in the buffer. Each message that is taken has a byte at least,
-- so that the length of the input is fuel enough; `none` when it runs out.
unfoldable pub message_loop : ℕ → Hub → ℕ → List ℕ → Option (Hub × List Effect × List ℕ)
unfolding with_result
message_loop zero h c input = none
message_loop (suc fuel) h c input =
    with_result (λ h' rest. message_loop fuel h' c rest) h c input (parse_message input)

unfoldable pub on_message : Hub → ℕ → List ℕ → Option (Hub × List Effect × List ℕ)
unfolding message_loop
on_message h c input = message_loop (suc (length input)) h c input

-- "utc_time"
abbrev pub utc_time : List ℕ
utc_time = b'u' ∷ b't' ∷ b'c' ∷ b'_' ∷ b't' ∷ b'i' ∷ b'm' ∷ b'e' ∷ []

-- `timePublish`, with the text of the time.
unfoldable pub time_publish : Hub → List ℕ → Hub × List Effect
unfolding do_publish
time_publish h now = do_publish h utc_time now

-- The states of the handler between two callbacks.
pub data Reachable : Hub → Type 0 where
  created : Reachable create_hub
  timer : {h : Hub} (now : List ℕ) → Reachable h → Reachable (time_publish h now).0
  received :
      {h h' : Hub} (c : ℕ) (input rest : List ℕ) (es : List Effect)
      → Reachable h
      → on_message h c input ≡ some (h', es, rest)
      → Reachable h'
  closed : {h : Hub} (c : ℕ) → Reachable h → Reachable (on_close h c)
