-- ===== src/Ssl/Decrypted.antt =====
-- sevent/net/ssl/SslContext.cpp, `decrypt`: what it makes of the input.
use sevent.Base.{
  ℕ, ◌+◌, ◌-◌, ◌*◌, ◌≤◌, ◌<◌, ◌≡◌, refl, ◌∙◌, Bool-cases, inl, inr, false, Option, some, List, ◌++◌,
  arith, ltb, ◌==◌, length, drop, Result, ok,
}
use sevent.Base.Memory.{max_size}
use sevent.Buffer.{Buffer, writable_bytes}
use sevent.Buffer.Contents.{contents}
use sevent.Ssl.{OpenSsl, Status, SslHandler, grow_for, get_ssl_status, ssl_read, decrypt}
use sevent.Ssl.Drain.{IsOpen, ensure_space-IsOpen, Pending, drain-Drained}

grow_for-IsOpen :
    (n : ℕ) (b : Buffer)
    → IsOpen b
    → b.write_index + n ≤ max_size
    → (b' : Buffer) × (grow_for n b ≡ ok b')
      × IsOpen b'
      × (contents b' ≡ contents b)
      × (b'.write_index ≤ b.write_index)
grow_for-IsOpen n b o small = elim (Bool-cases (ltb (writable_bytes b) n)) [
  | inl more ↦
      let (b', made, opened, same, back) =
        ensure_space-IsOpen b (n - writable_bytes b) o.valid o.fronted (ground (arith, more))
          (omega arith) in
      (b', rw (more, made) refl, opened, same, back)
  | inr fits ↦ (b, rw fits refl, o, refl, omega arith)
]

-- The input that OpenSSL took is gone, and all that it made of it stands behind what was decrypted.
pub record Decrypted {S : Type 0} (o : OpenSsl S) (p : Pending o.ssl_read) (h : SslHandler S)
    (input : List ℕ) (r : Option (Result (Status × SslHandler S × List ℕ))) : Type 0 where
  pub status : Status
  pub h' : SslHandler S
  pub returned : r ≡ some (ok (status, h', drop (o.bio_write h.ssl input).0 input))
  pub is_open : IsOpen h'.decrypt_data
  pub added :
      contents h'.decrypt_data ≡ contents h.decrypt_data ++ p.pending (o.bio_write h.ssl input).1

-- Where OpenSSL takes a byte of the input at least, more fuel is given than bytes are then pending, and
-- the open buffer of decrypted bytes may grow to twice what it will hold: decrypt returns, the input that
-- was taken is gone, and all that OpenSSL made of it stands behind what was decrypted before, in order.
pub decrypt-Decrypted :
    {S : Type 0} (o : OpenSsl S) (p : Pending o.ssl_read) (fuel : S → ℕ) (h : SslHandler S)
    (input : List ℕ)
    → 1 ≤ (o.bio_write h.ssl input).0
    → length (p.pending (o.bio_write h.ssl input).1) < fuel (o.bio_write h.ssl input).1
    → IsOpen h.decrypt_data
    → h.decrypt_data.write_index + length input ≤ max_size
    → 2 * (h.decrypt_data.write_index + length (p.pending (o.bio_write h.ssl input).1)) ≤ max_size
    → Decrypted o p h input (decrypt o fuel h input)
unfolding decrypt ssl_read
decrypt-Decrypted o p fuel h input n f open_before fits small =
    let s = (o.bio_write h.ssl input).1 in
    let (out, grown, opened, same, back) =
      grow_for-IsOpen (length input) h.decrypt_data open_before fits in
    let taken : ((o.bio_write h.ssl input).0 == 0) ≡ false = ground (arith, n) in
    let d = drain-Drained p (fuel s) 0 s out f opened (omega (arith, back)) in
    record {
      status = get_ssl_status d.code;
      h' = record h { ssl = d.s'; decrypt_data = d.b' };
      returned = rw (grown, taken, d.returned) refl;
      is_open = d.is_open;
      added = d.added ∙ rw same refl;
    }
