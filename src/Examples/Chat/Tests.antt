-- ===== src/Examples/Chat/Tests.antt =====
-- Runs of examples/chat/LengthHeaderCodec.h, and the theorems at them.
use sevent.Base.{◌≡◌, refl, inl, false, some, [], ◌∷◌, arith, ok}
use sevent.Buffer.{Buffer}
use sevent.Buffer.Contents.{IsValid, contents}
use sevent.Buffer.Codec.{little}
use sevent.Examples.Chat.{on_message}
use sevent.Examples.Chat.Frames.{on_message-frames}

-- The frames of "ab" and of an empty message, and three bytes of a length.
abbrev received : Buffer
received = record {
  bytes = 0 ∷ 0 ∷ 0 ∷ 0 ∷ 0 ∷ 0 ∷ 0 ∷ 0 ∷ 0 ∷ 0 ∷ 0 ∷ 2 ∷ 97 ∷ 98 ∷ 0 ∷ 0 ∷ 0 ∷ 0 ∷ 0 ∷ 0 ∷ 0 ∷ [];
  read_index = 8;
  write_index = 21;
}

abbrev received_valid : IsValid received
received_valid = record {
  ordered = omega arith;
  within = omega arith;
  front = omega arith;
  small = omega arith;
}

on_message-frames_example :
    (b : Buffer) × (on_message little received ≡ some (ok (b, (97 ∷ 98 ∷ []) ∷ [] ∷ [], false)))
    × IsValid b
    × (contents b ≡ 0 ∷ 0 ∷ 0 ∷ [])
on_message-frames_example =
    on_message-frames little ((97 ∷ 98 ∷ []) ∷ [] ∷ []) (0 ∷ 0 ∷ 0 ∷ []) false received_valid refl
      refl (inl (refl, omega arith))
