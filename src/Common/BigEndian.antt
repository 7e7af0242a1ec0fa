-- ===== src/Common/BigEndian.antt =====
-- `binary.Write` and `binary.Read` of a uint64 in big-endian order.
use ftu.Common.Tests.{Bytes}
use ftu.Common.Lists.{length, All}
use ftu.Common.Results.{Outcome, ok, err, eof, unexpected_eof}
use Prim.Native.Nat.{ℕ, ◌+◌, ◌*◌, ◌/◌, ◌%◌, ◌^◌, ◌<◌}
use mathlib.Core.Path.{◌≡◌, refl}
use mathlib.Core.List.{[], ◌∷◌, ◌++◌}
use native.Mathlib.Omega.{arith}

abbrev pub IsU64 : ℕ → Type 0
IsU64 v = v < 2 ^ 64

abbrev pub IsByte : ℕ → Type 0
IsByte b = b < 256

-- The eight bytes of a uint64, the highest first.
unfoldable pub put_u64 : ℕ → Bytes
put_u64 v =
    (v / 2 ^ 56 % 256)
    ∷ (v / 2 ^ 48 % 256)
    ∷ (v / 2 ^ 40 % 256)
    ∷ (v / 2 ^ 32 % 256)
    ∷ (v / 2 ^ 24 % 256)
    ∷ (v / 2 ^ 16 % 256)
    ∷ (v / 2 ^ 8 % 256)
    ∷ (v % 256)
    ∷ []

-- `binary.Read` fails with `io.EOF` if there is nothing to read and with `io.ErrUnexpectedEOF` if
-- there are fewer than eight bytes.
unfoldable pub read_u64 : Bytes → Outcome (ℕ × Bytes)
read_u64 [] = err eof
read_u64 (a ∷ b ∷ c ∷ d ∷ e ∷ f ∷ g ∷ h ∷ rest) = ok (
  a * 2 ^ 56 + b * 2 ^ 48 + c * 2 ^ 40 + d * 2 ^ 32 + e * 2 ^ 24 + f * 2 ^ 16 + g * 2 ^ 8 + h,
  rest,
)
read_u64 _ = err unexpected_eof

pub length-put_u64 : (v : ℕ) → length (put_u64 v) ≡ 8
unfolding put_u64
length-put_u64 v = refl

pub put_u64-IsByte : (v : ℕ) → All IsByte (put_u64 v)
unfolding put_u64
put_u64-IsByte v = omega arith

u64_digits :
    (v : ℕ)
    → IsU64 v
    → v / 2 ^ 56 % 256 * 2 ^ 56
        + v / 2 ^ 48 % 256 * 2 ^ 48
        + v / 2 ^ 40 % 256 * 2 ^ 40
        + v / 2 ^ 32 % 256 * 2 ^ 32
        + v / 2 ^ 24 % 256 * 2 ^ 24
        + v / 2 ^ 16 % 256 * 2 ^ 16
        + v / 2 ^ 8 % 256 * 2 ^ 8
        + v % 256
      ≡ v
u64_digits v h = omega arith

-- What was written is read back, and what follows is left.
pub read_u64-put_u64 :
    (v : ℕ) (rest : Bytes) → IsU64 v → read_u64 (put_u64 v ++ rest) ≡ ok (v, rest)
unfolding read_u64 put_u64
read_u64-put_u64 v rest h = rw (u64_digits v h) refl
