-- ===== src/Discovery/Hmac.antt =====
-- discovery/Hmac.hpp and .cpp: toHex, HMAC-SHA256 and the comparison in constant time.
pub mod Compare
use Prim.Native.Nat.{bit_or, bit_xor}
use easy_failover.Base.{
  ℕ, zero, suc, ◌+◌, ◌-◌, ◌/◌, ◌%◌, ◌^◌, ltb, ◌==◌, Bool, List, [], ◌∷◌, ◌++◌, map, length,
  replicate, Text, codes, ◌≡◌, refl, if◌then◌else◌,
}
use easy_failover.Discovery.Sha256.{sha256}

-- kHex[n]
hex_digit : ℕ → ℕ
hex_digit n = if ltb n 10 then b'0' + n else b'a' + (n - 10)

-- `byte >> 4`, then `byte & 0x0f`.
pub to_hex : List ℕ → Text
unfolding hex_digit
to_hex [] = []
to_hex (byte ∷ bytes) = hex_digit (byte / 16) ∷ hex_digit (byte % 16) ∷ to_hex bytes

-- k0: the key, or its digest if it is longer than a block, and zeros up to 64 bytes.
block_key : Text → List ℕ
block_key key =
    let k : List ℕ = if ltb 64 (length key) then sha256 key else key in
    k ++ replicate (64 - length k) 0

unfoldable pub hmac_sha256_hex : Text → Text → Text
unfolding to_hex block_key sha256
hmac_sha256_hex key message =
    let k0 = block_key key in
    let inner = map (λ k. bit_xor k 0x36) k0 ++ message in
    let outer = map (λ k. bit_xor k 0x5c) k0 ++ sha256 inner in to_hex (sha256 outer)

-- The loop over the common length, with the accumulator `diff`.
fold_difference : ℕ → Text → Text → ℕ
fold_difference diff (x ∷ xs) (y ∷ ys) = fold_difference (bit_or diff (bit_xor x y)) xs ys
fold_difference diff [] ys = diff
fold_difference diff (x ∷ xs) [] = diff

-- The lengths differ in their low 32 bits: static_cast<std::uint32_t>.
unfoldable pub constant_time_equals : Text → Text → Bool
unfolding fold_difference
constant_time_equals a b = fold_difference (bit_xor (length a) (length b) % 2 ^ 32) a b == 0
