-- ===== src/Reducer/Sha256.antt =====
-- `sha256HexBytes` over bytes as numbers. The words are `Uint32Array` elements, so each sum is
-- taken modulo 2^32.
pub mod Shape
use ai_coding_training_platf.Common.{
  take, ℕ, zero, suc, ◌+◌, ◌-◌, ◌*◌, ◌/◌, ◌%◌, ◌^◌, List, [], ◌∷◌, ◌++◌, length, if◌then◌else◌, ltb,
  Text,
}
use Prim.Native.Nat.{bit_and, bit_or, bit_xor}
use mathlib.Core.List.{reverse}

-- `x >>> 0`
unfoldable u32 : ℕ → ℕ
u32 x = x % 4294967296

-- `(x >>> k) | (x << (32 - k))`
unfoldable rotr : ℕ → ℕ → ℕ
rotr k x = bit_or (x / 2 ^ k) ((x * 2 ^ (32 - k)) % 4294967296)

unfoldable shr : ℕ → ℕ → ℕ
shr k x = x / 2 ^ k

unfoldable complement : ℕ → ℕ
complement x = 4294967295 - x

unfoldable drop : ℕ → List ℕ → List ℕ
drop zero xs = xs
drop (suc n) [] = []
drop (suc n) (x ∷ xs) = drop n xs

-- The element at an index, 0 past the end.
unfoldable at : ℕ → List ℕ → ℕ
at i [] = 0
at zero (x ∷ xs) = x
at (suc i) (x ∷ xs) = at i xs

unfoldable replicate : ℕ → List ℕ
replicate zero = []
replicate (suc n) = 0 ∷ replicate n

unfoldable sha256_k : List ℕ
sha256_k =
    0x428a2f98 ∷ 0x71374491 ∷ 0xb5c0fbcf ∷ 0xe9b5dba5 ∷ 0x3956c25b ∷ 0x59f111f1 ∷ 0x923f82a4
    ∷ 0xab1c5ed5 ∷ 0xd807aa98 ∷ 0x12835b01 ∷ 0x243185be ∷ 0x550c7dc3 ∷ 0x72be5d74 ∷ 0x80deb1fe
    ∷ 0x9bdc06a7 ∷ 0xc19bf174 ∷ 0xe49b69c1 ∷ 0xefbe4786 ∷ 0x0fc19dc6 ∷ 0x240ca1cc ∷ 0x2de92c6f
    ∷ 0x4a7484aa ∷ 0x5cb0a9dc ∷ 0x76f988da ∷ 0x983e5152 ∷ 0xa831c66d ∷ 0xb00327c8 ∷ 0xbf597fc7
    ∷ 0xc6e00bf3 ∷ 0xd5a79147 ∷ 0x06ca6351 ∷ 0x14292967 ∷ 0x27b70a85 ∷ 0x2e1b2138 ∷ 0x4d2c6dfc
    ∷ 0x53380d13 ∷ 0x650a7354 ∷ 0x766a0abb ∷ 0x81c2c92e ∷ 0x92722c85 ∷ 0xa2bfe8a1 ∷ 0xa81a664b
    ∷ 0xc24b8b70 ∷ 0xc76c51a3 ∷ 0xd192e819 ∷ 0xd6990624 ∷ 0xf40e3585 ∷ 0x106aa070 ∷ 0x19a4c116
    ∷ 0x1e376c08 ∷ 0x2748774c ∷ 0x34b0bcb5 ∷ 0x391c0cb3 ∷ 0x4ed8aa4a ∷ 0x5b9cca4f ∷ 0x682e6ff3
    ∷ 0x748f82ee ∷ 0x78a5636f ∷ 0x84c87814 ∷ 0x8cc70208 ∷ 0x90befffa ∷ 0xa4506ceb ∷ 0xbef9a3f7
    ∷ 0xc67178f2 ∷ []

unfoldable sha256_initial_hash : List ℕ
sha256_initial_hash =
    0x6a09e667 ∷ 0xbb67ae85 ∷ 0x3c6ef372 ∷ 0xa54ff53a ∷ 0x510e527f ∷ 0x9b05688c ∷ 0x1f83d9ab
    ∷ 0x5be0cd19 ∷ []

-- A number as four bytes, the highest first.
unfoldable pub big_endian : ℕ → List ℕ
big_endian n = n / 16777216 % 256 ∷ n / 65536 % 256 ∷ n / 256 % 256 ∷ n % 256 ∷ []

-- The padded message: 0x80, zeros up to `padLength - 8`, and the bit length as two words.
unfoldable pub padded : List ℕ → List ℕ
unfolding replicate big_endian u32
padded bytes =
    let pad_length = (length bytes + 9 + 63) / 64 * 64 in
    let bit_length = length bytes * 8 in
    bytes
    ++ (128 ∷ replicate (pad_length - 9 - length bytes)
        ++ (big_endian (bit_length / 4294967296) ++ big_endian (u32 bit_length)))

-- The words of a block.
unfoldable words : List ℕ → List ℕ
words (a ∷ b ∷ c ∷ d ∷ rest) = (a * 16777216 + b * 65536 + c * 256 + d) ∷ words rest
words _ = []

-- The schedule `W` with its last word in front, `n` words longer than the given one.
unfoldable extend : ℕ → List ℕ → List ℕ
unfolding at rotr shr u32
extend zero w = w
extend (suc n) w =
    let w15 = at 14 w in
    let w2 = at 1 w in
    let s0 = bit_xor (bit_xor (rotr 7 w15) (rotr 18 w15)) (shr 3 w15) in
    let s1 = bit_xor (bit_xor (rotr 17 w2) (rotr 19 w2)) (shr 10 w2) in
    extend n (u32 (at 15 w + s0 + at 6 w + s1) ∷ w)

pub record Hash : Type 0 where
  pub a : ℕ
  pub b : ℕ
  pub c : ℕ
  pub d : ℕ
  pub e : ℕ
  pub f : ℕ
  pub g : ℕ
  pub h : ℕ

unfoldable round : Hash → ℕ → ℕ → Hash
unfolding rotr complement u32
round s k w =
    let big_s1 = bit_xor (bit_xor (rotr 6 s.e) (rotr 11 s.e)) (rotr 25 s.e) in
    let ch = bit_xor (bit_and s.e s.f) (bit_and (complement s.e) s.g) in
    let t1 = u32 (s.h + big_s1 + ch + k + w) in
    let big_s0 = bit_xor (bit_xor (rotr 2 s.a) (rotr 13 s.a)) (rotr 22 s.a) in
    let mj = bit_xor (bit_xor (bit_and s.a s.b) (bit_and s.a s.c)) (bit_and s.b s.c) in
    let t2 = u32 (big_s0 + mj) in
    record {
      a = u32 (t1 + t2);
      b = s.a;
      c = s.b;
      d = s.c;
      e = u32 (s.d + t1);
      f = s.e;
      g = s.f;
      h = s.g;
    }

unfoldable rounds : Hash → List ℕ → List ℕ → Hash
unfolding round
rounds s (k ∷ ks) (w ∷ ws) = rounds (round s k w) ks ws
rounds s _ _ = s

unfoldable compress : Hash → List ℕ → Hash
unfolding rounds extend words sha256_k u32
compress s block =
    let t = rounds s sha256_k (reverse (extend 48 (reverse (words block)))) in
    record {
      a = u32 (s.a + t.a);
      b = u32 (s.b + t.b);
      c = u32 (s.c + t.c);
      d = u32 (s.d + t.d);
      e = u32 (s.e + t.e);
      f = u32 (s.f + t.f);
      g = u32 (s.g + t.g);
      h = u32 (s.h + t.h);
    }

-- The loop over the blocks, which number `length padded / 64`.
unfoldable blocks : ℕ → Hash → List ℕ → Hash
unfolding compress take drop
blocks zero s bytes = s
blocks (suc n) s bytes = blocks n (compress s (take 64 bytes)) (drop 64 bytes)

unfoldable initial : Hash
unfolding sha256_initial_hash at
initial = record {
  a = at 0 sha256_initial_hash;
  b = at 1 sha256_initial_hash;
  c = at 2 sha256_initial_hash;
  d = at 3 sha256_initial_hash;
  e = at 4 sha256_initial_hash;
  f = at 5 sha256_initial_hash;
  g = at 6 sha256_initial_hash;
  h = at 7 sha256_initial_hash;
}

-- `n.toString(16)` for a digit
unfoldable pub hex_digit : ℕ → ℕ
hex_digit n = if ltb n 10 then 48 + n else 87 + n

unfoldable pub hex_of : List ℕ → Text
unfolding hex_digit
hex_of [] = []
hex_of (byte ∷ bytes) = hex_digit (byte / 16) ∷ hex_digit (byte % 16) ∷ hex_of bytes

unfoldable pub sha256_hex_bytes : List ℕ → Text
unfolding hex_of big_endian blocks initial padded
sha256_hex_bytes bytes =
    let message = padded bytes in
    let s = blocks (length message / 64) initial message in
    hex_of (
      big_endian s.a
      ++ (big_endian s.b
          ++ (big_endian s.c
              ++ (big_endian s.d
                  ++ (big_endian s.e ++ (big_endian s.f ++ (big_endian s.g ++ big_endian s.h)))))))
