-- ===== src/Discovery/Sha256.antt =====
-- discovery/Hmac.cpp: the SHA-256 of FIPS 180-4 that the daemon carries. A word is a number below
-- 2 ^ 32, with its wrap-around written out; an array is the list of its elements.
use Prim.Native.Nat.{bit_and, bit_or, bit_xor}
use easy_failover.Base.{
  ℕ, zero, suc, ◌+◌, ◌-◌, ◌*◌, ◌/◌, ◌%◌, ◌^◌, ltb, List, [], ◌∷◌, ◌++◌, length, take, drop,
  replicate, Text, ◌≡◌, refl, if◌then◌else◌,
}

-- kK
abbrev round_constants : List ℕ
round_constants =
    0x428a2f98 ∷ 0x71374491 ∷ 0xb5c0fbcf ∷ 0xe9b5dba5 ∷ 0x3956c25b ∷ 0x59f111f1 ∷ 0x923f82a4
    ∷ 0xab1c5ed5 ∷ 0xd807aa98 ∷ 0x12835b01 ∷ 0x243185be ∷ 0x550c7dc3 ∷ 0x72be5d74 ∷ 0x80deb1fe
    ∷ 0x9bdc06a7 ∷ 0xc19bf174 ∷ 0xe49b69c1 ∷ 0xefbe4786 ∷ 0x0fc19dc6 ∷ 0x240ca1cc ∷ 0x2de92c6f
    ∷ 0x4a7484aa ∷ 0x5cb0a9dc ∷ 0x76f988da ∷ 0x983e5152 ∷ 0xa831c66d ∷ 0xb00327c8 ∷ 0xbf597fc7
    ∷ 0xc6e00bf3 ∷ 0xd5a79147 ∷ 0x06ca6351 ∷ 0x14292967 ∷ 0x27b70a85 ∷ 0x2e1b2138 ∷ 0x4d2c6dfc
    ∷ 0x53380d13 ∷ 0x650a7354 ∷ 0x766a0abb ∷ 0x81c2c92e ∷ 0x92722c85 ∷ 0xa2bfe8a1 ∷ 0xa81a664b
    ∷ 0xc24b8b70 ∷ 0xc76c51a3 ∷ 0xd192e819 ∷ 0xd6990624 ∷ 0xf40e3585 ∷ 0x106aa070 ∷ 0x19a4c116
    ∷ 0x1e376c08 ∷ 0x2748774c ∷ 0x34b0bcb5 ∷ 0x391c0cb3 ∷ 0x4ed8aa4a ∷ 0x5b9cca4f ∷ 0x682e6ff3
    ∷ 0x748f82ee ∷ 0x78a5636f ∷ 0x84c87814 ∷ 0x8cc70208 ∷ 0x90befffa ∷ 0xa4506ceb ∷ 0xbef9a3f7
    ∷ 0xc67178f2 ∷ []

-- std::uint32_t x + y and ~x.
add32 : ℕ → ℕ → ℕ
add32 x y = (x + y) % 2 ^ 32

not32 : ℕ → ℕ
not32 x = 2 ^ 32 - 1 - x

rotr : ℕ → ℕ → ℕ
rotr x n = bit_or (x / 2 ^ n) (x * 2 ^ (32 - n) % 2 ^ 32)

-- The element at an index, which the loops keep in range.
at : List ℕ → ℕ → ℕ
at [] i = 0
at (x ∷ xs) zero = x
at (x ∷ xs) (suc i) = at xs i

-- w[0] … w[15]: four bytes to a word, the first the highest.
words : List ℕ → List ℕ
words (a ∷ b ∷ c ∷ d ∷ rest) = (a * 2 ^ 24 + b * 2 ^ 16 + c * 2 ^ 8 + d) ∷ words rest
words _ = []

small_sigma0 : ℕ → ℕ
unfolding rotr
small_sigma0 x = bit_xor (bit_xor (rotr x 7) (rotr x 18)) (x / 2 ^ 3)

small_sigma1 : ℕ → ℕ
unfolding rotr
small_sigma1 x = bit_xor (bit_xor (rotr x 17) (rotr x 19)) (x / 2 ^ 10)

-- w[i] for i from 16 on, `n` of them: the list so far has length i.
schedule : ℕ → List ℕ → List ℕ
unfolding at small_sigma0 small_sigma1 add32
schedule zero w = w
schedule (suc n) w =
    let i = length w in
    schedule n (
      w
      ++ (add32 (add32 (add32 (at w (i - 16)) (small_sigma0 (at w (i - 15)))) (at w (i - 7)))
            (small_sigma1 (at w (i - 2)))
          ∷ []))

-- h, and the working variables a … hh.
pub record Words8 : Type 0 where
  pub a : ℕ
  pub b : ℕ
  pub c : ℕ
  pub d : ℕ
  pub e : ℕ
  pub f : ℕ
  pub g : ℕ
  pub hh : ℕ

initial_h : Words8
initial_h = record {
  a = 0x6a09e667;
  b = 0xbb67ae85;
  c = 0x3c6ef372;
  d = 0xa54ff53a;
  e = 0x510e527f;
  f = 0x9b05688c;
  g = 0x1f83d9ab;
  hh = 0x5be0cd19;
}

round : ℕ → ℕ → Words8 → Words8
unfolding rotr add32 not32
round k w v =
    let s1 = bit_xor (bit_xor (rotr v.e 6) (rotr v.e 11)) (rotr v.e 25) in
    let ch = bit_xor (bit_and v.e v.f) (bit_and (not32 v.e) v.g) in
    let t1 = add32 (add32 (add32 (add32 v.hh s1) ch) k) w in
    let s0 = bit_xor (bit_xor (rotr v.a 2) (rotr v.a 13)) (rotr v.a 22) in
    let maj = bit_xor (bit_xor (bit_and v.a v.b) (bit_and v.a v.c)) (bit_and v.b v.c) in
    let t2 = add32 s0 maj in
    record {
      a = add32 t1 t2;
      b = v.a;
      c = v.b;
      d = v.c;
      e = add32 v.d t1;
      f = v.e;
      g = v.f;
      hh = v.g;
    }

rounds : List ℕ → List ℕ → Words8 → Words8
unfolding round
rounds (k ∷ ks) (w ∷ ws) v = rounds ks ws (round k w v)
rounds _ _ v = v

add_words : Words8 → Words8 → Words8
unfolding add32
add_words h v = record {
  a = add32 h.a v.a;
  b = add32 h.b v.b;
  c = add32 h.c v.c;
  d = add32 h.d v.d;
  e = add32 h.e v.e;
  f = add32 h.f v.f;
  g = add32 h.g v.g;
  hh = add32 h.hh v.hh;
}

-- Sha256Ctx::transform on a block of 64 bytes.
pub transform : List ℕ → Words8 → Words8
unfolding words schedule rounds add_words
transform block h = add_words h (rounds round_constants (schedule 48 (words (take 64 block))) h)

-- The `full` loop: `n` whole blocks from the front.
transform_blocks : ℕ → List ℕ → Words8 → Words8
unfolding transform
transform_blocks zero bytes h = h
transform_blocks (suc n) bytes h = transform_blocks n (drop 64 bytes) (transform bytes h)

-- The `n` low bytes of a number, the highest first.
big_endian : ℕ → ℕ → List ℕ
big_endian zero x = []
big_endian (suc n) x = (x / 2 ^ (8 * n) % 256) ∷ big_endian n x

-- `tail`, of `total` bytes: the rest of the message, 0x80, zeros, and the length in bits.
pub padded_tail : List ℕ → ℕ → List ℕ
unfolding big_endian
padded_tail rest len =
    let total : ℕ = if ltb (length rest) 56 then 64 else 128 in
    rest ++ (0x80 ∷ (replicate (total - 9 - length rest) 0 ++ big_endian 8 (len * 8 % 2 ^ 64)))

digest : Words8 → List ℕ
unfolding big_endian
digest h =
    big_endian 4 h.a
    ++ (big_endian 4 h.b
        ++ (big_endian 4 h.c
            ++ (big_endian 4 h.d
                ++ (big_endian 4 h.e
                    ++ (big_endian 4 h.f ++ (big_endian 4 h.g ++ big_endian 4 h.hh))))))

-- sha256Raw, and sha256 on the bytes of a string.
unfoldable pub sha256 : Text → List ℕ
unfolding transform_blocks padded_tail digest initial_h
sha256 text =
    let len = length text in
    let full = len / 64 in
    let tail = padded_tail (drop (full * 64) text) len in
    digest (transform_blocks (length tail / 64) tail (transform_blocks full text initial_h))

pub length-sha256 : (text : Text) → length (sha256 text) ≡ 32
unfolding sha256 digest big_endian
length-sha256 text = refl
