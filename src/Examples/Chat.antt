-- ===== src/Examples/Chat.antt =====
-- examples/chat/LengthHeaderCodec.h: messages with their length in front, four bytes in network order.
pub mod Frames
mod Tests
use sevent.Base.{
  ℕ, zero, suc, ◌%◌, ◌^◌, Bool, true, false, ◌&&◌, ◌||◌, Option, none, some, List, [], ◌∷◌, ltb,
  leb, length, if◌then◌else◌, Result, ok, ◌>>=◌, bind_run,
}
use sevent.Base.Memory.{add_size, load}
use sevent.Buffer.{Buffer, create, initial_size, readable_bytes, retrieve, append}
use sevent.Buffer.Codec.{Endian, peek_int, prepend_int}

abbrev pub header_len : ℕ
header_len = 4

-- `send`: the buffer that is handed to the connection.
unfoldable pub encode : Endian → List ℕ → Result Buffer
encode e msg = do
  buf ← append (create initial_size) msg
  prepend_int e header_len buf (length msg % 2 ^ 32)

-- `len > 65536 || len < 0` of the bit pattern of an `int32_t`.
abbrev pub is_invalid : ℕ → Bool
is_invalid len = (ltb 65536 len && ltb len (2 ^ 31)) || leb (2 ^ 31) len

-- The loop of `onMessage`: the buffer, the messages in the order of `onMessageStr`, and whether the
-- connection is shut down; `none` when the fuel runs out.
unfoldable pub decode_loop : ℕ → Endian → Buffer → Option (Result (Buffer × List (List ℕ) × Bool))
decode_loop zero e b = none
decode_loop (suc fuel) e b =
    if ltb (readable_bytes b) header_len
    then some (ok (b, [], false))
    else bind_run (some (peek_int e header_len b)) (λ len.
      if is_invalid len
      then some (ok (b, [], true))
      else if leb (add_size len header_len) (readable_bytes b)
      then bind_run
          (some (load (retrieve b header_len).bytes (retrieve b header_len).read_index len))
          (λ message.
            bind_run (decode_loop fuel e (retrieve (retrieve b header_len) len))
              (λ r. some (ok (r.0, message ∷ r.1, r.2))))
      else some (ok (b, [], false)))

-- Each turn that goes on takes four bytes at least.
unfoldable pub on_message : Endian → Buffer → Option (Result (Buffer × List (List ℕ) × Bool))
unfolding decode_loop
on_message e b = decode_loop (suc (readable_bytes b)) e b
