-- ===== src/Buffer.antt =====
-- sevent/net/Buffer.h and sevent/net/Buffer.cpp: the byte buffer between a socket and its user.
-- The vector is `bytes`, and a `char *` into it is an index. A function that can access memory out
-- of bounds, throw, or fail its assert returns a `Result`.
pub mod Contents
pub mod Appending
pub mod Reading
pub mod Descriptors
pub mod Codec
pub mod Search
mod Tests
use Prim.Native.Nat.{ℕ, ◌+◌}
use sevent.Base.{
  ◌-◌, Bool, List, [], ◌++◌, Option, none, some, ltb, leb, ◌==◌, if◌then◌else◌, length, take, drop,
  replicate, Result, ok, err, ◌>>=◌, assertion,
}
use sevent.Base.Memory.{add_size, sub_size, slice, load, store, copy_within, resize}

abbrev pub prepends : ℕ
prepends = 8

abbrev pub initial_size : ℕ
initial_size = 1024

pub record Buffer : Type 0 where
  pub bytes : List ℕ
  pub read_index : ℕ
  pub write_index : ℕ

unfoldable pub create : ℕ → Buffer
create init_size = record {
  bytes = replicate (prepends + init_size) 0;
  read_index = prepends;
  write_index = prepends;
}

abbrev pub readable_bytes : Buffer → ℕ
readable_bytes b = sub_size b.write_index b.read_index

abbrev pub writable_bytes : Buffer → ℕ
writable_bytes b = sub_size (length b.bytes) b.write_index

abbrev pub prependable_bytes : Buffer → ℕ
prependable_bytes b = b.read_index

unfoldable pub retrieve_all : Buffer → Buffer
retrieve_all b = record b { read_index = prepends; write_index = prepends }

unfoldable pub retrieve : Buffer → ℕ → Buffer
unfolding retrieve_all
retrieve b len =
    if ltb len (readable_bytes b)
    then record b { read_index = add_size b.read_index len }
    else retrieve_all b

-- `end` is an index into the vector.
unfoldable pub retrieve_until : Buffer → ℕ → Buffer
unfolding retrieve
retrieve_until b end = retrieve b (sub_size end b.read_index)

unfoldable pub advance : Buffer → ℕ → Buffer
advance b len =
    if ltb len (writable_bytes b)
    then record b { write_index = add_size b.write_index len }
    else record b { write_index = length b.bytes }

-- The two branches of `ensureSpace` that change the buffer: grow the vector, or move what is
-- readable to the front.
grow : Buffer → ℕ → Result Buffer
grow b len = do bytes ← resize b.bytes (add_size b.write_index len); ok (record b { bytes = bytes })

move_to_front : Buffer → Result Buffer
move_to_front b = do
  bytes ← copy_within b.bytes b.read_index (readable_bytes b) prepends
  ok (record {
    bytes = bytes;
    read_index = prepends;
    write_index = add_size prepends (readable_bytes b);
  })

-- `assert(writableBytes() >= len)`
assert_space : Buffer → ℕ → Result Buffer
assert_space b len = if leb len (writable_bytes b) then ok b else err assertion

make_space : Buffer → ℕ → Result Buffer
unfolding grow move_to_front
make_space b len =
    if ltb (sub_size (add_size (writable_bytes b) (prependable_bytes b)) prepends) len
    then grow b len
    else move_to_front b

unfoldable pub ensure_space : Buffer → ℕ → Result Buffer
unfolding make_space assert_space
ensure_space b len =
    if leb len (writable_bytes b) then ok b else do b' ← make_space b len; assert_space b' len

-- Copy into the space at `writePos` and advance over it.
unfoldable pub put : Buffer → List ℕ → Result Buffer
put b xs = do
  bytes ← store b.bytes b.write_index xs
  ok (record b { bytes = bytes; write_index = add_size b.write_index (length xs) })

unfoldable pub append : Buffer → List ℕ → Result Buffer
unfolding ensure_space put
append b xs = do b' ← ensure_space b (length xs); put b' xs

-- `len > prependable ? prependable : len`
prepend_count : Buffer → List ℕ → ℕ
prepend_count b xs =
    if ltb (prependable_bytes b) (length xs) then prependable_bytes b else length xs

unfoldable pub prepend : Buffer → List ℕ → Result Buffer
unfolding prepend_count
prepend b xs = do
  let len = prepend_count b xs
  bytes ← store b.bytes (b.read_index - len) (take len xs)
  ok (record b { bytes = bytes; read_index = b.read_index - len })

unfoldable pub read_bytes : Buffer → ℕ → Result (List ℕ × Buffer)
unfolding retrieve
read_bytes b len = do
  let n = if ltb (readable_bytes b) len then readable_bytes b else len
  xs ← load b.bytes b.read_index n
  ok (xs, retrieve b n)

unfoldable pub read_all_as_string : Buffer → Result (List ℕ × Buffer)
unfolding retrieve_all
read_all_as_string b = do xs ← load b.bytes b.read_index (readable_bytes b); ok (xs, retrieve_all b)

unfoldable pub read_as_string : Buffer → ℕ → Result (List ℕ × Buffer)
unfolding read_all_as_string retrieve
read_as_string b len =
    if ltb (readable_bytes b) len
    then read_all_as_string b
    else do xs ← load b.bytes b.read_index len; ok (xs, retrieve b len)

unfoldable pub swap : Buffer → Buffer → Buffer × Buffer
swap b buf = (
  record b { bytes = buf.bytes; read_index = buf.read_index; write_index = buf.write_index },
  record buf { bytes = b.bytes; read_index = b.read_index; write_index = b.write_index },
)

-- A fresh buffer takes the readable bytes, and replaces this one.
unfoldable pub shrink_to_fit : Buffer → Result Buffer
unfolding create ensure_space append
shrink_to_fit b = do
  buf ← ensure_space (create initial_size) (readable_bytes b)
  xs ← load b.bytes b.read_index (readable_bytes b)
  append buf xs

-- `readv` into the free space and a second buffer on the stack. The kernel's answer is an argument:
-- `none` for -1, else the bytes that it delivers, the first of them into the free space.
abbrev pub extra_size : ℕ
extra_size = 65536

abbrev pub read_capacity : Buffer → ℕ
read_capacity b =
    if ltb (writable_bytes b) extra_size then writable_bytes b + extra_size else writable_bytes b

-- More than fits at the end: fill it, and append what came to the second buffer.
scatter : Buffer → List ℕ → Result Buffer
scatter b xs = do
  let writable = writable_bytes b
  bytes ← store b.bytes b.write_index (take writable xs)
  append (record b { bytes = bytes; write_index = length b.bytes }) (drop writable xs)

unfoldable pub read_fd : Buffer → Option (List ℕ) → Result (Option ℕ × Buffer)
unfolding put append scatter
read_fd b none = ok (none, b)
read_fd b (some xs) = do
  b' ←
      if length xs == 0
      then ok b
      else if leb (length xs) (writable_bytes b)
      then put b xs
      else scatter b xs
  ok (some (length xs), b')

-- `write` of what is readable. The kernel's answer is an argument, `none` for -1.
unfoldable pub write_fd : Buffer → Option ℕ → Option ℕ × Buffer
unfolding retrieve
write_fd b none = (none, b)
write_fd b (some n) = (some n, if n == 0 then b else retrieve b n)
