-- ===== src/Common/Bits.antt =====
-- Masks on one byte as arithmetic: tables of at most 256 entries, checked by evaluation.
use Prim.Native.Nat.{ℕ, zero, suc, ◌+◌, ◌*◌, ◌/◌, ◌%◌, ◌<◌, bit_and, bit_or}
use mathlib.Core.Path.{◌≡◌, refl}
use mathlib.Core.Bool.{Bool, true, false}
use mathlib.Core.Logic.{ite}
use native.Mathlib.Decide.{ℕ_discrete}
use native.Mathlib.Omega.{arith}

module _ (f g : ℕ → ℕ) where
  agree_below : ℕ → Bool
  unfolding ℕ_discrete
  agree_below zero = true
  agree_below (suc n) = ite (ℕ_discrete (f n) (g n)) (agree_below n) false

  agree_below→eq : (n : ℕ) → agree_below n ≡ true → (i : ℕ) → i < n → f i ≡ g i
  unfolding agree_below
  agree_below→eq zero e i h = absurd (omega arith)
  agree_below→eq (suc n) e i h = ground (arith, agree_below→eq n (ground arith) i)

-- `b & 0xF0` and `b & 0x0F` are the two halves of a byte.
pub high_nibble : (b : ℕ) → b < 256 → bit_and b 0xf0 ≡ b / 16 * 16
unfolding agree_below
high_nibble = agree_below→eq _ _ 256 refl

pub low_nibble : (b : ℕ) → b < 256 → bit_and b 0x0f ≡ b % 16
unfolding agree_below
low_nibble = agree_below→eq _ _ 256 refl

-- A tiny size under each of the four marker bases.
pub tiny_string_marker : (n : ℕ) → n < 16 → bit_or 0x80 (n % 256) ≡ 0x80 + n
unfolding agree_below
tiny_string_marker = agree_below→eq _ _ 16 refl

pub tiny_list_marker : (n : ℕ) → n < 16 → bit_or 0x90 (n % 256) ≡ 0x90 + n
unfolding agree_below
tiny_list_marker = agree_below→eq _ _ 16 refl

pub tiny_map_marker : (n : ℕ) → n < 16 → bit_or 0xa0 (n % 256) ≡ 0xa0 + n
unfolding agree_below
tiny_map_marker = agree_below→eq _ _ 16 refl

pub tiny_struct_marker : (n : ℕ) → n < 16 → bit_or 0xb0 (n % 256) ≡ 0xb0 + n
unfolding agree_below
tiny_struct_marker = agree_below→eq _ _ 16 refl
