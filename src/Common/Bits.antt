-- ===== src/Common/Bits.antt =====
-- Statements on one byte, from a table that evaluation checks.
use Prim.Native.Nat.{ℕ, zero, suc, ◌+◌, ◌%◌, ◌<◌, bit_xor}
use mathlib.Core.Path.{◌≡◌, refl}
use mathlib.Core.Bool.{Bool, true, false}
use native.Mathlib.Omega.{arith}
use arbordb.Common.Tests.{◌==◌, if◌then◌else◌}

-- The test holds of each number below the bound.
unfoldable pub passes : (ℕ → Bool) → ℕ → Bool
passes test zero = true
passes test (suc bound) = let below = passes test bound in if test bound then below else false

pub passes-lt :
    (test : ℕ → Bool) (bound byte : ℕ) → byte < bound → passes test bound ≡ true → test byte ≡ true
unfolding passes
passes-lt test zero byte less all = absurd (omega arith)
passes-lt test (suc bound) byte less all = ground (arith, passes-lt test bound byte)

flips : ℕ → Bool
flips byte = bit_xor byte 0x80 == (byte + 128) % 256

flips_table : passes flips 256 ≡ true
unfolding passes flips
flips_table = refl

-- Flipping the top bit of a byte adds 128 and wraps.
pub flip_top : (x : ℕ) → x < 256 → bit_xor x 0x80 ≡ (x + 128) % 256
unfolding flips
flip_top x h = let agreed = passes-lt flips 256 x h flips_table in ground (arith, agreed)
