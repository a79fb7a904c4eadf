-- ===== src/SimpleSled/Tests/Querying.antt =====
-- The producer of payloads at a concrete input.
use willow_rs.Prelude.{ℕ, ◌≡◌, some, [], ◌∷◌, get_elem?, arith}
use willow_rs.SimpleSled.Query.{PayloadProducer}
use willow_rs.SimpleSled.Query.Producer.{produce_bytes, copies, produce_bytes_lem}

abbrev producer : PayloadProducer
producer = record { produced = 1; ivec = 8 ∷ 9 ∷ [] }

produce_bytes_lem_example :
    (byte : ℕ) × (get_elem? (8 ∷ 9 ∷ []) 1 ≡ some byte)
    × (produce_bytes {E = ℕ} 3 producer ≡ copies 3 byte)
produce_bytes_lem_example = produce_bytes_lem 3 producer (omega arith)
