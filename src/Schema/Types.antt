-- ===== src/Schema/Types.antt =====
-- Names for the columns' types.
use tteeka.Prelude.{ℕ}

abbrev pub Uuid : Type 0
Uuid = ℕ

abbrev pub Key : Type 0
Key = ℕ

abbrev pub Hash : Type 0
Hash = ℕ

abbrev pub Currency : Type 0
Currency = ℕ

abbrev pub Date : Type 0
Date = ℕ

-- `MAX_BIGINT`, which is also the largest value of a BIGINT column
abbrev pub max_bigint : ℕ
max_bigint = 9223372036854775807
