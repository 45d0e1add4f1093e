-- ===== src/Sha256.antt =====
-- src/sha256.rs: the streaming SHA-256 hasher. A `u8`, `u32`, `u64` or `usize` is a natural number;
-- the wrapping additions and the rotations write their modulus out. Arrays are lists.
pub mod Compress
pub mod Stream
pub mod Padding
use tracescript.Prelude.{
  ℕ, zero, suc, ◌+◌, ◌-◌, ◌*◌, ◌/◌, ◌%◌, ◌^◌, Bool, true, false, List, [], ◌∷◌, ◌++◌, Text, length,
  take, drop, replicate, ltb, leb, ◌==◌, if◌then◌else◌, set,
}
use Prim.Native.Nat.{min}
use tracescript.Sha256.Compress.{Words, h0, process_block, word_bytes}
pub use tracescript.Sha256.Compress.{Words, h0}
unfoldable pub use tracescript.Sha256.Compress.{process_block, word_bytes}

pub record Sha256 : Type 0 where
  pub state : Words
  pub buffer : List ℕ
  pub buffer_len : ℕ
  pub bit_count : ℕ

-- `Sha256::new`
abbrev pub new : Sha256
new = record { state = h0; buffer = replicate 64 0; buffer_len = 0; bit_count = 0 }

-- `buffer[at..at + src.len()].copy_from_slice(src)`
unfoldable pub copy_at : ℕ → List ℕ → List ℕ → List ℕ
copy_at i src buf = take i buf ++ (src ++ drop (i + length src) buf)

-- `while data.len() >= 64`, with fuel; `data.len()` rounds are enough.
unfoldable pub blocks : ℕ → Words → List ℕ → Words × List ℕ
blocks zero st xs = (st, xs)
blocks (suc f) st xs =
    let more = blocks f (process_block st (take 64 xs)) (drop 64 xs) in
    if leb 64 (length xs) then more else (st, xs)

-- the block under `if self.buffer_len > 0`: the hasher and what is left of the data
unfoldable pub fill : Sha256 → List ℕ → Sha256 × List ℕ
unfolding copy_at
fill s xs =
    if ltb 0 s.buffer_len
    then (let n = min (64 - s.buffer_len) (length xs) in
        let buf = copy_at s.buffer_len (take n xs) s.buffer in
        if s.buffer_len + n == 64
        then (
          record s { state = process_block s.state buf; buffer = buf; buffer_len = 0 },
          drop n xs,
        )
        else (record s { buffer = buf; buffer_len = s.buffer_len + n }, drop n xs))
    else (s, xs)

-- `if !data.is_empty()`: keep the tail for the next call.
unfoldable pub keep : Sha256 → List ℕ → Sha256
unfolding copy_at
keep s [] = s
keep s (x ∷ xs) = record s { buffer = copy_at 0 (x ∷ xs) s.buffer; buffer_len = length (x ∷ xs) }

-- what follows the first `if` of `update`
unfoldable pub absorb : Sha256 → List ℕ → Sha256
unfolding blocks keep
absorb s xs = let (st, rest) = blocks (length xs) s.state xs in keep (record s { state = st }) rest

unfoldable pub update : Sha256 → List ℕ → Sha256
unfolding fill absorb
update s xs =
    let n = (s.bit_count + length xs * 8 % 2 ^ 64) % 2 ^ 64 in
    let (s', rest) = fill (record s { bit_count = n }) xs in absorb s' rest

-- `u64::to_be_bytes`
unfoldable pub be_bytes64 : ℕ → List ℕ
be_bytes64 n =
    n / 2 ^ 56 % 256
    ∷ n / 2 ^ 48 % 256
    ∷ n / 2 ^ 40 % 256
    ∷ n / 2 ^ 32 % 256
    ∷ n / 2 ^ 24 % 256
    ∷ n / 2 ^ 16 % 256
    ∷ n / 2 ^ 8 % 256
    ∷ n % 256
    ∷ []

-- `if self.buffer_len > 56`: the end mark has left no room for the length.
unfoldable pub spill : Words → List ℕ → ℕ → Words × List ℕ × ℕ
unfolding copy_at
spill st buf n =
    if ltb 56 n
    then (let zeroed = copy_at n (replicate (64 - n) 0) buf in (process_block st zeroed, zeroed, 0))
    else (st, buf, n)

-- `finalize` up to the output: the last words of the state
unfoldable pub last_state : Sha256 → Words
unfolding copy_at spill be_bytes64
last_state s =
    let marked = set s.buffer s.buffer_len 0x80 in
    let (st, buf, n) = spill s.state marked (s.buffer_len + 1) in
    let zeroed = copy_at n (replicate (56 - n) 0) buf in
    process_block st (copy_at 56 (be_bytes64 s.bit_count) zeroed)

unfoldable pub finalize : Sha256 → List ℕ
unfolding last_state word_bytes
finalize s = word_bytes (last_state s)

unfoldable pub hash : List ℕ → List ℕ
unfolding update finalize
hash xs = finalize (update new xs)

abbrev hex_digit : ℕ → ℕ
hex_digit n = if ltb n 10 then b'0' + n else b'a' + (n - 10)

-- `hex_digest`: two lower-case digits for each byte
unfoldable pub hex_digest : List ℕ → Text
hex_digest [] = []
hex_digest (x ∷ xs) = hex_digit (x / 16) ∷ hex_digit (x % 16) ∷ hex_digest xs
