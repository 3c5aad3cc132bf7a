-- ===== src/Base/Words.antt =====
-- Unsigned machine words and their bytes on a little-endian host. A uint32_t is a number below
-- 2 ^ 32; its first byte in memory is its lowest.
use Prim.Native.Nat.{ℕ, ◌+◌, ◌-◌, ◌*◌, ◌/◌, ◌%◌, ◌^◌, ◌<◌}
use mathlib.Core.Path.{◌≡◌, sym, ap, ◌∙◌}
use native.Mathlib.Omega.{arith}

-- A signed integer: `negsuc n` is -(n + 1).
pub data ℤ : Type 0 where
  pos : ℕ → ℤ
  negsuc : ℕ → ℤ

-- `++` and `--` on an unsigned counter of 32 and of 16 bits.
abbrev pub inc32 : ℕ → ℕ
inc32 n = (n + 1) % 2 ^ 32

abbrev pub dec32 : ℕ → ℕ
dec32 n = (n + 2 ^ 32 - 1) % 2 ^ 32

abbrev pub inc16 : ℕ → ℕ
inc16 n = (n + 1) % 2 ^ 16

abbrev pub dec16 : ℕ → ℕ
dec16 n = (n + 2 ^ 16 - 1) % 2 ^ 16

-- The four bytes of a uint32_t in memory order.
unfoldable pub byte0 : ℕ → ℕ
byte0 n = n % 256

unfoldable pub byte1 : ℕ → ℕ
byte1 n = n / 2 ^ 8 % 256

unfoldable pub byte2 : ℕ → ℕ
byte2 n = n / 2 ^ 16 % 256

unfoldable pub byte3 : ℕ → ℕ
byte3 n = n / 2 ^ 24 % 256

-- ntohl and htonl: the bytes are swapped.
unfoldable pub ntohl : ℕ → ℕ
unfolding byte0 byte1 byte2 byte3
ntohl n = byte0 n * 2 ^ 24 + byte1 n * 2 ^ 16 + byte2 n * 2 ^ 8 + byte3 n

abbrev pub htonl : ℕ → ℕ
htonl = ntohl

pub ntohl-lt : (n : ℕ) → ntohl n < 2 ^ 32
unfolding ntohl
ntohl-lt n = omega arith

pub ntohl-ntohl : (n : ℕ) → n < 2 ^ 32 → ntohl (ntohl n) ≡ n
unfolding ntohl
ntohl-ntohl n h = omega arith

pub ntohl-injective : (m n : ℕ) → m < 2 ^ 32 → n < 2 ^ 32 → ntohl m ≡ ntohl n → m ≡ n
ntohl-injective m n p q e = sym (ntohl-ntohl m p) ∙ ap ntohl e ∙ ntohl-ntohl n q

-- The value of a number as a uint32_t.
abbrev pub u32 : ℕ → ℕ
u32 n = n % 2 ^ 32
