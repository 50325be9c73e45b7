-- ===== src/Base/Bytes.antt =====
-- Little-endian numbers of four bytes, as cpu_to_le32 lays them out.
use mathlib.Core.Path.{◌≡◌}
use Prim.Native.Nat.{ℕ, ◌+◌, ◌*◌, ◌/◌, ◌%◌, ◌<◌}
use native.Mathlib.Omega.{arith}

-- A byte of a number, the lowest first.
abbrev pub byte0 : ℕ → ℕ
byte0 n = n % 256

abbrev pub byte1 : ℕ → ℕ
byte1 n = n / 256 % 256

abbrev pub byte2 : ℕ → ℕ
byte2 n = n / 65536 % 256

abbrev pub byte3 : ℕ → ℕ
byte3 n = n / 16777216 % 256

-- le32_to_cpu of four bytes.
abbrev pub le32 : ℕ → ℕ → ℕ → ℕ → ℕ
le32 a b c d = a + 256 * b + 65536 * c + 16777216 * d

pub le32-bytes : (n : ℕ) → n < 4294967296 → le32 (byte0 n) (byte1 n) (byte2 n) (byte3 n) ≡ n
le32-bytes n h = omega arith
