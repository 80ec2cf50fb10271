-- ===== src/Base/Halves.antt =====
-- 64-bit words from and to two 32-bit halves, as the driver writes them.
use Prim.Native.Nat.{ℕ, ◌+◌, ◌*◌, ◌/◌, ◌%◌, ◌^◌, ◌<◌, bit_and, bit_or}
use mathlib.Core.Path.{◌≡◌}
use native.Mathlib.Omega.{arith}
use litepcie_ptm_test.Base.Bits.{bit_or_sum, bit_and_low}
use litepcie_ptm_test.Base.Word.{u32, ◌<<<◌, ◌>>>◌}

pub u32-bound : (n : ℕ) → u32 n < 2 ^ 32
u32-bound n = omega arith

pub low_half : (v : ℕ) → v < 2 ^ 64 → u32 (bit_and (v >>> 0) 0xffffffff) ≡ v % 2 ^ 32
low_half v w = omega (arith, bit_and_low 64 32 (v >>> 0))

pub high_half : (v : ℕ) → v < 2 ^ 64 → u32 (bit_and (v >>> 32) 0xffffffff) ≡ v / 2 ^ 32
high_half v w = omega (arith, bit_and_low 64 32 (v >>> 32))

pub join_masked :
    (h l : ℕ) → h < 2 ^ 32 → l < 2 ^ 32 → bit_or (h <<< 32) (bit_and l 0xffffffff) ≡ h * 2 ^ 32 + l
join_masked h l a b =
    let m : bit_and l 0xffffffff ≡ l = omega (arith, bit_and_low 32 32 l) in
    rw m (bit_or_sum 32 32 h l a b)

pub join : (h l : ℕ) → h < 2 ^ 32 → l < 2 ^ 32 → bit_or (h <<< 32) l ≡ h * 2 ^ 32 + l
join h l a b = bit_or_sum 32 32 h l a b
