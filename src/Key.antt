-- ===== src/Key.antt =====
-- crates/arbordb/src/key.rs. The `Uuid` inside an `AKey` is its 128-bit number; `as_bytes` and
-- `from_bytes` are big-endian.
use arbordb.Common.{
  ℕ, ◌^◌, ◌<◌, ◌≡◌, List, not, length, ◌==◌, if◌then◌else◌, Result, ok, err, bad_key,
}
use arbordb.Common.Be.{be, from_be, length-be, from_be-be}

abbrev pub AKey : Type 0
AKey = ℕ

abbrev pub IsAKey : AKey → Type 0
IsAKey k = k < 2 ^ 128

-- `AKey::ROOT`, the nil UUID.
abbrev pub root : AKey
root = 0

unfoldable pub into_bytes : AKey → List ℕ
into_bytes k = be 16 k

unfoldable pub from_bytes : List ℕ → AKey
from_bytes bytes = from_be bytes

unfoldable pub try_from_bytes : List ℕ → Result AKey
try_from_bytes bytes = if not (length bytes == 16) then err bad_key else ok (from_bytes bytes)

pub length-into_bytes : (k : AKey) → length (into_bytes k) ≡ 16
unfolding into_bytes
length-into_bytes k = length-be 16 k

pub from_bytes-into_bytes : (k : AKey) → IsAKey k → from_bytes (into_bytes k) ≡ k
unfolding into_bytes from_bytes
from_bytes-into_bytes k h = from_be-be 16 k h

pub try_from_bytes-into_bytes : (k : AKey) → IsAKey k → try_from_bytes (into_bytes k) ≡ ok k
unfolding try_from_bytes
try_from_bytes-into_bytes k h = rw (length-into_bytes k, from_bytes-into_bytes k h)
