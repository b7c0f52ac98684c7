-- ===== src/Buffer/Tests.antt =====
-- Runs of sevent/net/Buffer.cpp on small buffers, and the buffer theorems at them.
use sevent.Base.{◌≡◌, refl, inr, some, [], ◌∷◌, arith, ok, err, out_of_bounds, ◌>>=◌}
use sevent.Base.Memory.{resize, store}
use sevent.Buffer.{Buffer, append, read_fd}
use sevent.Buffer.Contents.{IsValid, contents}
use sevent.Buffer.Appending.{append-Appended, append_after_prepend, Appended}
use sevent.Buffer.Descriptors.{read_fd_lem}
use sevent.Buffer.Codec.{little, big, prepend_int, read_int, read_int-prepend_int}
use sevent.Buffer.Search.{find_crlf_from, IsFirst, HasCrlf, find_crlf_from-IsFirst}

-- "a\r\nb" behind the eight bytes in front, and one byte free.
abbrev line : Buffer
line = record {
  bytes = 0 ∷ 0 ∷ 0 ∷ 0 ∷ 0 ∷ 0 ∷ 0 ∷ 0 ∷ 97 ∷ 13 ∷ 10 ∷ 98 ∷ 0 ∷ [];
  read_index = 8;
  write_index = 12;
}

-- Two bytes were prepended, and the vector is full.
abbrev prepended : Buffer
prepended = record {
  bytes = 0 ∷ 0 ∷ 0 ∷ 0 ∷ 0 ∷ 0 ∷ 7 ∷ 7 ∷ 1 ∷ [];
  read_index = 6;
  write_index = 9;
}

line-IsValid : IsValid line
line-IsValid = omega arith

append_grows :
    append line (1 ∷ 2 ∷ [])
    ≡ ok (record {
      bytes = 0 ∷ 0 ∷ 0 ∷ 0 ∷ 0 ∷ 0 ∷ 0 ∷ 0 ∷ 97 ∷ 13 ∷ 10 ∷ 98 ∷ 1 ∷ 2 ∷ [];
      read_index = 8;
      write_index = 14;
    })
unfolding append resize store
append_grows = refl

append-Appended_example :
    (b : Buffer) × (append line (1 ∷ 2 ∷ []) ≡ ok b) × Appended line (1 ∷ 2 ∷ []) b
append-Appended_example =
    append-Appended (1 ∷ 2 ∷ []) line-IsValid (inr (omega arith)) (omega arith)

append_after_prepend_example : append prepended (5 ∷ []) ≡ err out_of_bounds
append_after_prepend_example =
    append_after_prepend {b = prepended} (5 ∷ []) (omega arith) (omega arith) (omega arith)
      (omega arith)

read_fd_example :
    (b : Buffer) × (read_fd line (some (1 ∷ 2 ∷ 3 ∷ [])) ≡ ok (some 3, b))
    × Appended line (1 ∷ 2 ∷ 3 ∷ []) b
read_fd_example = read_fd_lem (1 ∷ 2 ∷ 3 ∷ []) line-IsValid (inr (omega arith)) (omega arith)

read_int-prepend_int_example :
    (b : Buffer) × ((prepend_int little 4 line 4 >>= read_int big 4) ≡ ok (4, b))
    × IsValid b
    × (contents b ≡ 97 ∷ 13 ∷ 10 ∷ 98 ∷ [])
read_int-prepend_int_example =
    read_int-prepend_int little big 4 4 line-IsValid (omega arith) (omega arith)

find_crlf_run : find_crlf_from line 8 ≡ some 9
unfolding find_crlf_from
find_crlf_run = refl

find_crlf_from_example : IsFirst 8 (HasCrlf line.bytes 12) (find_crlf_from line 8)
find_crlf_from_example = find_crlf_from-IsFirst line-IsValid 8 (omega arith) (omega arith)
