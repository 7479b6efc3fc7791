-- ===== src/Common/Int.antt =====
-- Signed integers, their two's complement patterns, and big-endian bytes.
use Prim.Native.Nat.{ℕ, ◌+◌, ◌-◌, ◌*◌, ◌/◌, ◌%◌, ◌^◌, ◌<◌}
use mathlib.Core.Path.{◌≡◌}
use mathlib.Core.Bool.{true, Bool}
use mathlib.Core.List.{List, [], ◌∷◌}
use native.Mathlib.Omega.{arith}
use native.Mathlib.Nat.{one-le-pow}
use gopher_cypher.Common.Tests.{ltb, leb, if◌then◌else◌}

-- `negsuc n` is -(n + 1).
pub data ℤ : Type 0 where
  pos : ℕ → ℤ
  negsuc : ℕ → ℤ

-- The interval from -(n + 1) up to m.
abbrev pub between : ℕ → ℕ → ℤ → Bool
between n m (pos i) = leb i m
between n m (negsuc i) = leb i n

-- The conversion of an integer to w unsigned bits: uint16(i) is `wrap 16 i`.
abbrev pub wrap : ℕ → ℤ → ℕ
wrap w (pos n) = n % 2 ^ w
wrap w (negsuc n) = 2 ^ w - 1 - n % 2 ^ w

-- The conversion of w unsigned bits to a signed integer: int16(u) is `signed 16 u`.
abbrev pub signed : ℕ → ℕ → ℤ
signed w u = if ltb u (2 ^ (w - 1)) then pos u else negsuc (2 ^ w - 1 - u)

-- The values of an int64.
abbrev pub IsInt64 : ℤ → Type 0
IsInt64 (pos n) = n < 2 ^ 63
IsInt64 (negsuc n) = n < 2 ^ 63

-- binary.BigEndian.PutUint16, PutUint32 and PutUint64.
abbrev pub put_uint16 : ℕ → List ℕ
put_uint16 u = (u / 256 % 256) ∷ (u % 256) ∷ []

abbrev pub put_uint32 : ℕ → List ℕ
put_uint32 u = (u / 2 ^ 24 % 256) ∷ (u / 2 ^ 16 % 256) ∷ (u / 2 ^ 8 % 256) ∷ (u % 256) ∷ []

abbrev pub put_uint64 : ℕ → List ℕ
put_uint64 u =
    (u / 2 ^ 56 % 256)
    ∷ (u / 2 ^ 48 % 256)
    ∷ (u / 2 ^ 40 % 256)
    ∷ (u / 2 ^ 32 % 256)
    ∷ put_uint32 (u % 2 ^ 32)

-- binary.BigEndian.Uint16, Uint32 and Uint64, and a byte itself: the number that the bytes spell.
abbrev pub big_endian : ℕ → List ℕ → ℕ
big_endian acc [] = acc
big_endian acc (b ∷ bs) = big_endian (acc * 256 + b) bs

pub big_endian-put_uint16 : (u : ℕ) → u < 2 ^ 16 → big_endian 0 (put_uint16 u) ≡ u
big_endian-put_uint16 u h = omega arith

pub big_endian-put_uint32 : (u : ℕ) → u < 2 ^ 32 → big_endian 0 (put_uint32 u) ≡ u
big_endian-put_uint32 u h = omega arith

pub big_endian-put_uint64 : (u : ℕ) → u < 2 ^ 64 → big_endian 0 (put_uint64 u) ≡ u
big_endian-put_uint64 u h = omega arith

-- Narrowing a value that fits, and widening it again, gives the value.
pub signed-wrap_8 : (i : ℤ) → between 127 127 i ≡ true → signed 8 (wrap 8 i) ≡ i
signed-wrap_8 (pos n) h = ground arith
signed-wrap_8 (negsuc n) h = ground arith

pub signed-wrap_16 : (i : ℤ) → between 32767 32767 i ≡ true → signed 16 (wrap 16 i) ≡ i
signed-wrap_16 (pos n) h = ground arith
signed-wrap_16 (negsuc n) h = ground arith

pub signed-wrap_32 : (i : ℤ) → between 2147483647 2147483647 i ≡ true → signed 32 (wrap 32 i) ≡ i
signed-wrap_32 (pos n) h = ground arith
signed-wrap_32 (negsuc n) h = ground arith

pub signed-wrap_64 : (i : ℤ) → IsInt64 i → signed 64 (wrap 64 i) ≡ i
signed-wrap_64 (pos n) h = ground arith
signed-wrap_64 (negsuc n) h = ground arith

pub wrap-lt : (w : ℕ) (i : ℤ) → wrap w i < 2 ^ w
wrap-lt w (pos n) = grind (arith, one-le-pow w 2 (omega arith))
wrap-lt w (negsuc n) = omega (arith, one-le-pow w 2 (omega arith))
