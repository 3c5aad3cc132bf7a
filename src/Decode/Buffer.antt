-- ===== src/Decode/Buffer.antt =====
-- src/bgp_update.cpp: reads of a packet buffer. A read outside the buffer is a fault, and so is a
-- copy that is larger than the variable that it fills.
use log2bgp.Base.{
  ℕ, zero, suc, ◌+◌, ◌*◌, ◌/◌, ◌^◌, List, [], ◌∷◌, get_elem?, leb, length, Result, ok, or_fault,
  ensure, read_out_of_bounds, write_out_of_bounds, ◌>>=◌, ◌>>◌,
}

-- packet[i].
unfoldable pub byte_at : List ℕ → ℕ → Result ℕ
byte_at packet i = or_fault (get_elem? packet i) read_out_of_bounds

-- (packet[i] << 8) + packet[i + 1].
unfoldable pub be16 : List ℕ → ℕ → Result ℕ
be16 packet i = do a ← byte_at packet i; b ← byte_at packet (i + 1); ok (a * 2 ^ 8 + b)

-- (packet[i] << 24) + (packet[i + 1] << 16) + (packet[i + 2] << 8) + packet[i + 3].
unfoldable pub be32 : List ℕ → ℕ → Result ℕ
be32 packet i = do
  a ← byte_at packet i
  b ← byte_at packet (i + 1)
  c ← byte_at packet (i + 2)
  d ← byte_at packet (i + 3)
  ok (a * 2 ^ 24 + b * 2 ^ 16 + c * 2 ^ 8 + d)

-- `n` bytes from packet[i] on.
unfoldable pub bytes_at : List ℕ → ℕ → ℕ → Result (List ℕ)
bytes_at packet i zero = ok []
bytes_at packet i (suc n) = do b ← byte_at packet i; bs ← bytes_at packet (suc i) n; ok (b ∷ bs)

-- The number whose first bytes in memory are these, and whose other bytes are 0.
unfoldable pub le_value : List ℕ → ℕ
le_value [] = 0
le_value (b ∷ bs) = b + 256 * le_value bs

-- memcpy(&v, &packet[i], n) into a uint32_t `v`: the first `n` bytes change.
unfoldable pub copy_u32 : ℕ → List ℕ → ℕ → ℕ → Result ℕ
copy_u32 v packet i n = do
  ensure (leb n 4) write_out_of_bounds
  bs ← bytes_at packet i n
  ok (v / 256 ^ length bs * 256 ^ length bs + le_value bs)
