-- ===== src/Base/Bytes.antt =====
-- Numbers as little-endian bytes of a given width, and a reader of byte streams.
use log2bgp.Base.{
  ℕ, zero, suc, ◌+◌, ◌*◌, ◌/◌, ◌%◌, ◌^◌, ◌<◌, ◌≡◌, refl, Option, none, some, List, [], ◌∷◌, ◌++◌,
  length, arith,
}
use native.Mathlib.Nat.{pow-suc}

-- The bytes of a variable of `n` bytes in memory, in order.
unfoldable pub le_bytes : ℕ → ℕ → List ℕ
le_bytes zero v = []
le_bytes (suc n) v = (v % 256) ∷ le_bytes n (v / 256)

-- A reader takes what it needs from the front of the bytes, and fails where they end.
abbrev pub Reader {ℓ} : Type ℓ → Type ℓ
Reader A = List ℕ → Option (A × List ℕ)

unfoldable pub pure {ℓ} : {A : Type ℓ} → A → Reader A
pure a r = some (a, r)

infixl 5 ◌>>=◌
unfoldable pub ◌>>=◌ {ℓ κ} : {A : Type ℓ} {B : Type κ} → Reader A → (A → Reader B) → Reader B
◌>>=◌ m f r = elim (m r) [ none ↦ none | some (a, r') ↦ f a r' ]

-- read((char *) &v, n) into a variable of `n` bytes.
unfoldable pub read_le : ℕ → Reader ℕ
read_le zero r = some (0, r)
read_le (suc n) [] = none
read_le (suc n) (b ∷ r) = elim (read_le n r) [ none ↦ none | some (v, r') ↦ some (b + 256 * v, r') ]

div-lt-pow : (n v : ℕ) → v < 256 ^ suc n → v / 256 < 256 ^ n
div-lt-pow n v h = omega (arith, pow-suc 256 n)

-- Reading back what was written, whatever follows.
pub read_le-le_bytes :
    (n v : ℕ) (r : List ℕ) → v < 256 ^ n → read_le n (le_bytes n v ++ r) ≡ some (v, r)
unfolding read_le le_bytes
read_le-le_bytes zero v r h = ground arith
read_le-le_bytes (suc n) v r h = ground (arith, read_le-le_bytes n (v / 256) r (div-lt-pow n v h))

pub length-le_bytes : (n v : ℕ) → length (le_bytes n v) ≡ n
unfolding le_bytes
length-le_bytes zero v = refl
length-le_bytes (suc n) v = omega (arith, length-le_bytes n (v / 256))
