-- ===== src/Codec/Putters.antt =====
-- crates/arbordb/src/codec/putters.rs. A `Vec<u8>` that is appended to is a list of bytes.
use arbordb.Common.{ℕ, ◌%◌, ◌^◌, List, ◌++◌, length}
use arbordb.Common.Be.{be}

unfoldable pub put_u32 : List ℕ → ℕ → List ℕ
put_u32 buf v = buf ++ be 4 v

-- The length is cast to `u32`, which keeps its low 32 bits.
unfoldable pub put_bytes : List ℕ → List ℕ → List ℕ
unfolding put_u32
put_bytes buf bytes = put_u32 buf (length bytes % 2 ^ 32) ++ bytes
