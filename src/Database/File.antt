-- ===== src/Database/File.antt =====
-- std::fstream as src/bgp_database.cpp uses it: one position for reading and writing, which a write
-- or a read moves to its end. A write over old bytes replaces them.
use log2bgp.Base.{
  ℕ, ◌+◌, ◌^◌, ◌%◌, Bool, true, Option, none, some, List, [], ◌++◌, length, take, drop, ltb,
  if◌then◌else◌,
}

pub record FStream : Type 0 where
  pub is_open : Bool
  pub contents : List ℕ
  pub position : ℕ

-- open(name, out), close, open(name, in | out | binary): the first call truncates the file.
unfoldable pub open_stream : FStream
open_stream = record { is_open = true; contents = []; position = 0 }

-- (int) tellp(), as the bits of an int.
unfoldable pub tellp : FStream → ℕ
tellp s = s.position % 2 ^ 32

-- seekg(int): a negative position is refused.
unfoldable pub seekg : ℕ → FStream → Option FStream
seekg p s = if ltb p (2 ^ 31) then some (record s { position = p }) else none

unfoldable pub write : List ℕ → FStream → FStream
write bytes s = record s {
  contents = take s.position s.contents ++ (bytes ++ drop (s.position + length bytes) s.contents);
  position = s.position + length bytes;
}
