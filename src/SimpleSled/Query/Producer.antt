-- ===== src/SimpleSled/Query/Producer.antt =====
-- `PayloadProducer` of store_simple_sled/src/lib.rs, asked for one byte after the other.
use willow_rs.Prelude.{
  ℕ, zero, suc, ◌<◌, ◌≡◌, refl, ◌⊎◌, inl, some, List, [], ◌∷◌, arith, length, get_elem?,
}
use willow_rs.Prelude.Outcome.{Outcome, ok, Done}
use willow_rs.SimpleSled.Query.{PayloadProducer, produce_byte}

-- What `n` calls of `produce` yield, one after the other.
pub produce_bytes : {E : Type 0} → ℕ → PayloadProducer → List (Outcome E (ℕ ⊎ Done))
produce_bytes zero p = []
produce_bytes {E = E} (suc n) p =
    (produce_byte {E = E} p).0 ∷ produce_bytes n (produce_byte {E = E} p).1

abbrev pub copies : {E : Type 0} → ℕ → ℕ → List (Outcome E (ℕ ⊎ Done))
copies zero byte = []
copies (suc n) byte = ok (inl byte) ∷ copies n byte

byte_below :
    {A : Type 0} (xs : List A) (i : ℕ) → i < length xs → (x : A) × (get_elem? xs i ≡ some x)
byte_below [] i h = elim h [ ]
byte_below (x ∷ xs) zero h = (x, refl)
byte_below (x ∷ xs) (suc i) h = byte_below xs i (omega arith)

same_byte :
    {E : Type 0} (n : ℕ) (p : PayloadProducer) (byte : ℕ)
    → get_elem? p.ivec p.produced ≡ some byte
    → p.produced < length p.ivec
    → produce_bytes {E = E} n p ≡ copies n byte
unfolding produce_byte produce_bytes
same_byte zero p byte e h = refl
same_byte {E = E} (suc n) p byte e h =
    let unmoved : produce_byte {E = E} p ≡ (ok (inl byte), p) = ground arith in
    rw (unmoved, same_byte {E = E} n p byte e h) refl

-- While there is a byte at its offset, the producer yields that byte at every call: it never moves
-- on, and never ends.
pub produce_bytes_lem :
    {E : Type 0} (n : ℕ) (p : PayloadProducer)
    → p.produced < length p.ivec
    → (byte : ℕ) × (get_elem? p.ivec p.produced ≡ some byte)
      × (produce_bytes {E = E} n p ≡ copies n byte)
produce_bytes_lem n p h =
    let (byte, e) = byte_below p.ivec p.produced h in (byte, e, same_byte n p byte e h)
