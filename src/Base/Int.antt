-- ===== src/Base/Int.antt =====
-- Signed integers over the native numbers, and the wrap-around of int16_t and int32_t.
use Prim.Native.Nat.{ℕ, suc, ◌+◌, ◌-◌, ◌%◌, ◌≤◌}
use mathlib.Core.Path.{◌≡◌}
use mathlib.Core.Bool.{Bool}
use native.Mathlib.Omega.{arith}
use aone_webrtc_stt.Base.Tests.{ltb, if◌then◌else◌}

-- `negsuc n` is -(n + 1).
pub data ℤ : Type 0 where
  pos : ℕ → ℤ
  negsuc : ℕ → ℤ

abbrev pub pos_part : ℤ → ℕ
pos_part (pos n) = n
pos_part (negsuc n) = 0

abbrev pub neg_part : ℤ → ℕ
neg_part (pos n) = 0
neg_part (negsuc n) = suc n

infix 50 ◌≤ℤ◌
abbrev pub ◌≤ℤ◌ : ℤ → ℤ → Type 0
a ≤ℤ b = pos_part a + neg_part b ≤ pos_part b + neg_part a

abbrev pub ltb_ℤ : ℤ → ℤ → Bool
ltb_ℤ a b = ltb (pos_part a + neg_part b) (pos_part b + neg_part a)

-- The residue of an integer: its two's-complement pattern at a width of m values.
abbrev pub residue : ℕ → ℤ → ℕ
residue m (pos n) = n % m
residue m (negsuc n) = m - 1 - n % m

-- The signed reading of a pattern below 2 * h.
abbrev pub signed : ℕ → ℕ → ℤ
signed h r = if ltb r h then pos r else negsuc (h + h - r - 1)

-- static_cast to int32_t.
unfoldable pub to_int32 : ℤ → ℤ
to_int32 a = signed 2147483648 (residue 4294967296 a)

-- static_cast to int16_t.
unfoldable pub to_int16 : ℤ → ℤ
to_int16 a = signed 32768 (residue 65536 a)

-- The values of int16_t.
abbrev pub IsInt16 : ℤ → Type 0
IsInt16 a = (negsuc 32767 ≤ℤ a) × (a ≤ℤ pos 32767)

-- The values of int32_t.
abbrev pub IsInt32 : ℤ → Type 0
IsInt32 a = (negsuc 2147483647 ≤ℤ a) × (a ≤ℤ pos 2147483647)

pub to_int32_id : (a : ℤ) → IsInt32 a → to_int32 a ≡ a
unfolding to_int32
to_int32_id a h = ground arith
