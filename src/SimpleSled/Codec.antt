-- ===== src/SimpleSled/Codec.antt =====
-- The encodings that store_simple_sled/src/lib.rs takes from other crates (ufotofu_codec and the
-- implementations of its traits for the id types): parameters, with what the keys rely on.
use willow_rs.Prelude.{ℕ, ◌^◌, ◌<◌, ◌≡◌, Option, some, List, ◌++◌, compare, length}
use willow_rs.Prelude.Order.{Ord, cmp_list, then_with, nat_ord}

-- `encode` and `decode` of a type; `none` stands for the error of a `decode` that is unwrapped. What
-- was encoded decodes to the value, and leaves what follows it.
pub record Codec {ℓ} (A : Type ℓ) : Type ℓ where
  pub encode : A → List ℕ
  pub decode : List ℕ → Option (A × List ℕ)
  pub decode_encode : (a : A) (rest : List ℕ) → decode (encode a ++ rest) ≡ some (a, rest)

-- What the range scans rely on: encodings are ordered like the values, whatever follows them.
pub record IsOrdered {ℓ} {A : Type ℓ} ⦃o : Ord A⦄ (c : Codec A) : Type ℓ where
  pub cmp-encode :
      (a b : A) (x y : List ℕ)
      → cmp_list (c.encode a ++ x) (c.encode b ++ y) ≡ then_with (o.cmp a b) (cmp_list x y)

-- `U64BE`: eight bytes, the most significant first, on the numbers that a `u64` holds.
pub record U64Codec : Type 0 where
  pub encode : ℕ → List ℕ
  pub decode : List ℕ → Option (ℕ × List ℕ)
  pub decode_encode :
      (n : ℕ) (rest : List ℕ) → n < 2 ^ 64 → decode (encode n ++ rest) ≡ some (n, rest)
  pub length-encode : (n : ℕ) → length (encode n) ≡ 8
  pub cmp-encode :
      (m n : ℕ) (x y : List ℕ)
      → m < 2 ^ 64
      → n < 2 ^ 64
      → cmp_list (encode m ++ x) (encode n ++ y) ≡ then_with (compare m n) (cmp_list x y)
