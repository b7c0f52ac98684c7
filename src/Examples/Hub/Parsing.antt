-- ===== src/Examples/Hub/Parsing.antt =====
-- examples/hub/hubCodec.cpp: what `parseMessage` reads of a message that `makeMsg` of hub.cpp writes.
use sevent.Base.{ℕ, ◌≡◌, refl, ap, ◌∙◌, false, List, [], ◌∷◌, ◌++◌, ◌==◌, append_assoc, arith, some}
use sevent.Http.{add_before}
use sevent.Examples.Hub.{cut_crlf, parse_success, parse_message, make_msg, has, pub_cmd}

cut_crlf-cons :
    (x y : ℕ) (xs : List ℕ)
    → (x == 13) ≡ false
    → cut_crlf (x ∷ y ∷ xs) ≡ add_before x (cut_crlf (y ∷ xs))
cut_crlf-cons x y xs e = rw e refl

-- The first line is what is before the first CRLF, where no CR is before it.
cut_crlf-line :
    (line rest : List ℕ)
    → has line 13 ≡ false
    → cut_crlf (line ++ 13 ∷ 10 ∷ rest) ≡ some (line, rest)
cut_crlf-line [] rest plain = refl
cut_crlf-line (x ∷ []) rest plain = cut_crlf-cons x 13 (10 ∷ rest) (ground (arith, plain))
cut_crlf-line (x ∷ y ∷ line) rest plain =
    cut_crlf-cons x y (line ++ 13 ∷ 10 ∷ rest) (ground (arith, plain))
    ∙ ap (add_before x) (cut_crlf-line (y ∷ line) rest (ground (arith, plain)))

-- The text of a message before another text.
laid_out :
    (topic content rest : List ℕ)
    → make_msg topic content ++ rest
      ≡ (pub_cmd ++ 32 ∷ topic) ++ 13 ∷ 10 ∷ (content ++ 13 ∷ 10 ∷ rest)
unfolding make_msg
laid_out topic content rest =
    rw
      (
        append_assoc topic (13 ∷ 10 ∷ (content ++ 13 ∷ 10 ∷ [])) rest,
        append_assoc content (13 ∷ 10 ∷ []) rest,
      )
      refl

-- `parseMessage` reads a message that `makeMsg` writes as the command "pub" with its topic and its
-- content and takes it alone from the buffer, where neither text has a CR.
pub parse_message-make_msg :
    (topic content rest : List ℕ)
    → has topic 13 ≡ false
    → has content 13 ≡ false
    → parse_message (make_msg topic content ++ rest) ≡ parse_success pub_cmd topic content rest
unfolding parse_message
parse_message-make_msg topic content rest t c =
    rw
      (
        laid_out topic content rest,
        cut_crlf-line (pub_cmd ++ 32 ∷ topic) (content ++ 13 ∷ 10 ∷ rest) t,
        cut_crlf-line content rest c,
      )
      refl
