-- ===== src/World/Bytes.antt =====
-- src/bgp_update.cpp: what is read of a buffer of bytes.
use log2bgp.Base.{
  ℕ, zero, suc, ◌+◌, ◌*◌, ◌/◌, ◌^◌, ◌≤◌, ◌<◌, ◌≡◌, refl, List, [], ◌∷◌, ◌++◌, All, length, take,
  drop, get_elem?, leb, or_fault, read_out_of_bounds, write_out_of_bounds, arith,
}
use native.Mathlib.Nat.{zero-div}
use log2bgp.Decode.Buffer.{byte_at, bytes_at, le_value, copy_u32}
use log2bgp.World.Yields.{Yields, Yields->>=, Yields-ensure}

abbrev pub IsByte : ℕ → Type 0
IsByte b = b < 256

abbrev pub Bytes : List ℕ → Type 0
Bytes bs = All IsByte bs

pub take-Bytes : (n : ℕ) (bs : List ℕ) → Bytes bs → Bytes (take n bs)
take-Bytes zero bs h = tt
take-Bytes (suc n) [] h = tt
take-Bytes (suc n) (b ∷ bs) (h, hs) = (h, take-Bytes n bs hs)

pub drop-Bytes : (n : ℕ) (bs : List ℕ) → Bytes bs → Bytes (drop n bs)
unfolding drop
drop-Bytes zero bs h = h
drop-Bytes (suc n) [] h = tt
drop-Bytes (suc n) (b ∷ bs) (h, hs) = drop-Bytes n bs hs

pub All-append {ℓ} :
    {A : Type ℓ} (P : A → Type 0) (xs ys : List A) → All P xs → All P ys → All P (xs ++ ys)
All-append P [] ys h k = k
All-append P (x ∷ xs) ys (h, hs) k = (h, All-append P xs ys hs k)

or_fault-Yields :
    (bs : List ℕ) (i : ℕ) → Bytes bs → Yields IsByte (or_fault (get_elem? bs i) read_out_of_bounds)
unfolding get_elem?
or_fault-Yields [] i h = tt
or_fault-Yields (b ∷ bs) zero h = h.0
or_fault-Yields (b ∷ bs) (suc i) h = or_fault-Yields bs i h.1

pub byte_at-IsByte : (bs : List ℕ) (i : ℕ) → Bytes bs → Yields IsByte (byte_at bs i)
unfolding byte_at
byte_at-IsByte bs i h = or_fault-Yields bs i h

-- So many bytes.
abbrev BytesOf : ℕ → List ℕ → Type 0
BytesOf n bs = (length bs ≡ n) × Bytes bs

bytes_at-BytesOf : (bs : List ℕ) (i n : ℕ) → Bytes bs → Yields (BytesOf n) (bytes_at bs i n)
unfolding bytes_at
bytes_at-BytesOf bs i zero h = (refl, tt)
bytes_at-BytesOf bs i (suc n) h =
    Yields->>= IsByte (BytesOf (suc n)) (byte_at bs i) _ (byte_at-IsByte bs i h) λ b w.
      Yields->>= (BytesOf n) (BytesOf (suc n)) (bytes_at bs (suc i) n) _
        (bytes_at-BytesOf bs (suc i) n h) λ rest v. (omega (arith, v.0), (w, v.1))

le_value-lt : (bs : List ℕ) → Bytes bs → le_value bs < 256 ^ length bs
unfolding le_value
le_value-lt [] h = omega arith
le_value-lt (b ∷ bs) (h, hs) = ground (arith, le_value-lt bs hs)

short_lt : (n v : ℕ) → n ≤ 4 → v < 256 ^ n → v < 2 ^ 32
short_lt zero v h k = omega arith
short_lt (suc zero) v h k = omega arith
short_lt (suc (suc zero)) v h k = omega arith
short_lt (suc (suc (suc zero))) v h k = omega arith
short_lt (suc (suc (suc (suc zero)))) v h k = omega arith
short_lt (suc (suc (suc (suc (suc n))))) v h k = absurd (omega arith)

copied_lt : (x v : ℕ) → v < x → 0 / x * x + v < x
copied_lt x v h = omega (arith, zero-div x)

-- A number copied into four bytes that were 0, from at most four bytes.
abbrev pub Copied : ℕ → ℕ → Type 0
Copied n v = (v < 2 ^ 32) × (n ≤ 4)

pub copy_u32-Copied : (bs : List ℕ) (i n : ℕ) → Bytes bs → Yields (Copied n) (copy_u32 0 bs i n)
unfolding copy_u32
copy_u32-Copied bs i n h = Yields-ensure (Copied n) (leb n 4) write_out_of_bounds _ λ k.
    Yields->>= (BytesOf n) (Copied n) (bytes_at bs i n) _ (bytes_at-BytesOf bs i n h) λ got w.
      let short : n ≤ 4 = ground (arith, k) in
      (
        short_lt (length got) _ (omega (arith, w.0))
            (copied_lt (256 ^ length got) (le_value got) (le_value-lt got (w.1))),
        short,
      )
