-- ===== src/Ssl.antt =====
-- sevent/net/ssl/SslContext.cpp, the class SslHandler: what it reads from OpenSSL and writes to it.
-- OpenSSL is a parameter: a state `S`, which holds the connection and its two memory BIOs.
pub mod Drain
pub mod Decrypted
pub mod Codec
mod Tests
use sevent.Base.{
  ℕ, zero, suc, ◌+◌, ◌-◌, ◌≡◌, ◌⊎◌, inl, inr, refl, Bool, true, false, Option, none, some, List, [],
  ◌∷◌, ◌++◌, ltb, ◌==◌, length, drop, if◌then◌else◌, Result, ok, err, ◌>>=◌, bind_run,
}
use sevent.Base.Memory.{store, slice}
use sevent.Buffer.{Buffer, readable_bytes, writable_bytes, ensure_space, advance}

-- What `SSL_get_error` says after a call.
pub data Code : Type 0 where
  error_none error_want_write error_want_read error_zero_return error_other : Code

-- The calls of OpenSSL. A read returns at most as many bytes as it is asked for, none if it fails; a
-- write tells how many bytes it took, none if it fails.
pub record OpenSsl (S : Type 0) : Type 0 where
  pub do_handshake : S → Code × S
  pub ssl_read : S → ℕ → List ℕ × Code × S
  pub ssl_write : S → List ℕ → ℕ × Code × S
  pub bio_read : S → ℕ → List ℕ × S
  pub bio_write : S → List ℕ → ℕ × S
  pub is_init_finished : S → Bool

pub data Status : Type 0 where
  ssl_ok ssl_want ssl_close ssl_fail : Status

-- `getSslStatus`
abbrev pub get_ssl_status : Code → Status
get_ssl_status Code.error_none = ssl_ok
get_ssl_status Code.error_want_write = ssl_want
get_ssl_status Code.error_want_read = ssl_want
get_ssl_status Code.error_zero_return = ssl_close
get_ssl_status Code.error_other = ssl_fail

-- The bytes of one read go to `writePos()`, and the buffer never stays full.
unfoldable pub take_in : Buffer → List ℕ → Result Buffer
take_in b xs = do
  bytes ← store b.bytes b.write_index xs
  (let b' = advance (record b { bytes = bytes }) (length xs) in
      if writable_bytes b' == 0 then ensure_space b' (length b'.bytes) else ok b')

-- The loop of `bioRead` and of `sslRead`, which differ in `read`: the number of bytes, what the last
-- call said, and the states.
module _ {S : Type 0} {R : Type 0} (read : S → ℕ → List ℕ × R × S) where
  unfoldable pub drain : ℕ → ℕ → S → Buffer → Option (Result (ℕ × R × S × Buffer))
  unfolding take_in
  drain zero count s b = none
  drain (suc fuel) count s b =
      let (xs, code, s') = read s (writable_bytes b) in
      if length xs == 0
      then some (ok (count, code, s', b))
      else bind_run (some (take_in b xs)) (drain fuel (count + length xs) s')

pub data ConnectStatus : Type 0 where
  connecting connected : ConnectStatus

pub record SslHandler (S : Type 0) : Type 0 where
  pub ssl : S
  pub status : ConnectStatus
  pub encrypt_data : Buffer
  pub decrypt_data : Buffer

abbrev pub grow_for : ℕ → Buffer → Result Buffer
grow_for n b = if ltb (writable_bytes b) n then ensure_space b (n - writable_bytes b) else ok b

-- The fuel of a loop is the one for the state in which it starts.
module _ {S : Type 0} (o : OpenSsl S) where
  abbrev pub read_wbio : S → ℕ → List ℕ × Bool × S
  read_wbio s n = let (xs, s') = o.bio_read s n in (xs, true, s')

  unfoldable pub bio_read : (S → ℕ) → S → Buffer → Option (Result (ℕ × S × Buffer))
  unfolding drain
  bio_read fuel s b = bind_run (drain read_wbio (fuel s) 0 s b) (λ r. some (ok (r.0, r.2, r.3)))

  -- `sslRead`, and the status of its last call.
  unfoldable pub ssl_read : (S → ℕ) → S → Buffer → Option (Result (Status × S × Buffer))
  unfolding drain
  ssl_read fuel s b =
      bind_run (drain o.ssl_read (fuel s) 0 s b) (λ r. some (ok (get_ssl_status r.1, r.2, r.3)))

  -- `decrypt`: the input is the readable bytes of the buffer.
  unfoldable pub decrypt :
      (S → ℕ) → SslHandler S → List ℕ → Option (Result (Status × SslHandler S × List ℕ))
  unfolding ssl_read
  decrypt fuel h input = bind_run (some (grow_for (length input) h.decrypt_data)) (λ out.
      let (n, s) = o.bio_write h.ssl input in
      if n == 0
      then some (ok (ssl_fail, record h { ssl = s; decrypt_data = out }, input))
      else bind_run (ssl_read fuel s out)
          (λ r. some (ok (r.0, record h { ssl = r.1; decrypt_data = r.2 }, drop n input))))

  -- `encrypt`: what OpenSSL made of the bytes is read only if the write took them.
  unfoldable pub encrypt : (S → ℕ) → SslHandler S → List ℕ → Option (Result (Status × SslHandler S))
  unfolding bio_read
  encrypt fuel h bytes = bind_run (some (grow_for (length bytes) h.encrypt_data)) (λ out.
      let (n, code, s) = o.ssl_write h.ssl bytes in
      if n == 0
      then some (ok (get_ssl_status code, record h { ssl = s; encrypt_data = out }))
      else bind_run (bio_read fuel s out)
          (λ r. some (ok (get_ssl_status code, record h { ssl = r.1; encrypt_data = r.2 }))))
