-- ===== src/Ssl/Tests.antt =====
-- Runs of sevent/net/ssl, with a toy of OpenSSL: its state is the bytes that it was given and that are
-- not read, and it changes no byte.
use sevent.Base.{
  ℕ, zero, suc, ◌+◌, ◌≤◌, ◌≡◌, refl, Bool, true, false, some, none, List, [], ◌∷◌, ◌++◌, arith,
  length, take, drop, length-take, take-append-drop, min, Option, Result, ok, ◌<◌,
}
use sevent.Buffer.{Buffer, create}
use sevent.Ssl.{
  OpenSsl, Code, SslHandler, ConnectStatus, ssl_want, connecting, connected, drain, decrypt,
  read_wbio,
}
use sevent.Ssl.Drain.{IsOpen, Pending, Drained, drain-Drained}
use sevent.Ssl.Decrypted.{Decrypted, decrypt-Decrypted}
use sevent.Ssl.Codec.{Effect, next_on_connection, next_on_message, run, on_message, pass_on}
use sevent.Ssl.Codec.Total.{Told, run-connects}

abbrev toy : OpenSsl (List ℕ)
toy = record {
  do_handshake = λ s. (Code.error_none, s);
  ssl_read = λ s n. (take n s, Code.error_want_read, drop n s);
  ssl_write = λ s xs. (length xs, Code.error_none, s ++ xs);
  bio_read = λ s n. (take n s, drop n s);
  bio_write = λ s xs. (length xs, s ++ xs);
  is_init_finished = λ s. true;
}

toy-progress : (s : List ℕ) (n : ℕ) → 1 ≤ n → 1 ≤ length s → 1 ≤ length (toy.ssl_read s n).0
toy-progress s n h p = omega (arith, length-take n s)

toy-at_most : (s : List ℕ) (n : ℕ) → length (toy.ssl_read s n).0 ≤ n
toy-at_most s n = omega (arith, length-take n s)

abbrev toy_pending : Pending toy.ssl_read
toy_pending = record {
  pending = λ s. s;
  in_order = λ s n. take-append-drop n s;
  at_most = toy-at_most;
  progress = toy-progress;
}

abbrev enough : List ℕ → ℕ
enough s = suc (length s)

abbrev small : Buffer
unfolding sevent.Buffer.create
small = create 2

abbrev small_open : IsOpen small
unfolding sevent.Buffer.create
small_open = record {
  valid = record {
    ordered = omega arith;
    within = omega arith;
    front = omega arith;
    small = omega arith;
  };
  fronted = omega arith;
  free = omega arith;
}

abbrev handler : SslHandler (List ℕ)
handler = record { ssl = []; status = connecting; encrypt_data = small; decrypt_data = small }

drain-Drained_example :
    Drained toy_pending 0 (1 ∷ 2 ∷ 3 ∷ []) small (drain toy.ssl_read 4 0 (1 ∷ 2 ∷ 3 ∷ []) small)
unfolding sevent.Buffer.create
drain-Drained_example =
    drain-Drained toy_pending 4 0 (1 ∷ 2 ∷ 3 ∷ []) small (omega arith) small_open (omega arith)

decrypt-Decrypted_example :
    Decrypted toy toy_pending handler (7 ∷ 8 ∷ 9 ∷ []) (decrypt toy enough handler (7 ∷ 8 ∷ 9 ∷ []))
unfolding sevent.Buffer.create
decrypt-Decrypted_example =
    decrypt-Decrypted toy toy_pending enough handler (7 ∷ 8 ∷ 9 ∷ []) (omega arith) (omega arith)
      small_open (omega arith) (omega arith)

abbrev filled : ℕ → Buffer
filled end = record {
  bytes = 0 ∷ 0 ∷ 0 ∷ 0 ∷ 0 ∷ 0 ∷ 0 ∷ 0 ∷ 7 ∷ 0 ∷ [];
  read_index = 8;
  write_index = end;
}

abbrev with_data : ConnectStatus → ℕ → SslHandler (List ℕ)
with_data status end = record {
  ssl = [];
  status = status;
  encrypt_data = small;
  decrypt_data = filled end;
}

returned :
    run toy enough handler ((7 ∷ [], 1) ∷ [])
    ≡ some (ok (with_data connected 8, next_on_connection ∷ next_on_message (7 ∷ []) ∷ []))
unfolding sevent.Ssl.Codec.run sevent.Ssl.decrypt sevent.Ssl.ssl_read sevent.Ssl.drain
    sevent.Ssl.take_in sevent.Buffer.create sevent.Buffer.advance sevent.Buffer.retrieve
    sevent.Base.Memory.store
returned = refl

abbrev toy_wire : Pending (read_wbio toy)
toy_wire = record {
  pending = λ s. s;
  in_order = λ s n. take-append-drop n s;
  at_most = toy-at_most;
  progress = toy-progress;
}

run-connects_example :
    (r : Result (SslHandler (List ℕ) × List Effect)) × (run toy enough handler ((7 ∷ [], 1) ∷ [])
      ≡ some r)
    × Told handler r
run-connects_example =
    run-connects toy toy_pending toy_wire enough (λ s. omega arith) (λ s. omega arith)
      ((7 ∷ [], 1) ∷ []) handler
