-- ===== src/Discovery/Hmac/Compare.antt =====
-- The comparison in constant time decides equality, and the size of a signature.
use Prim.Native.Nat.{bit_or, bit_xor}
use easy_failover.Base.{
  ℕ, ◌*◌, ◌^◌, ◌<◌, ==_iff, true, List, [], ◌∷◌, length, Text, ◌≡◌, refl, ◌↔◌, arith,
}
use easy_failover.Base.Bits.{bit_or-zero_iff, bit_xor-zero_iff, eq_of_xor_32}
use easy_failover.Discovery.Hmac.{constant_time_equals, hmac_sha256_hex, fold_difference, to_hex}
use easy_failover.Discovery.Sha256.{sha256, length-sha256}

fold-zero :
    (diff : ℕ) (a b : Text)
    → length a ≡ length b
    → fold_difference diff a b ≡ 0
    → (diff ≡ 0) × (a ≡ b)
unfolding fold_difference
fold-zero diff [] [] l h = (h, refl)
fold-zero diff [] (y ∷ ys) l h = absurd (omega arith)
fold-zero diff (x ∷ xs) [] l h = absurd (omega arith)
fold-zero diff (x ∷ xs) (y ∷ ys) l h =
    let (d, e) = fold-zero (bit_or diff (bit_xor x y)) xs ys (omega arith) h in
    let (z, b) = (bit_or-zero_iff diff (bit_xor x y)).0 d in (z, cc ((bit_xor-zero_iff x y).0 b, e))

fold_start-zero : (diff : ℕ) (a b : Text) → fold_difference diff a b ≡ 0 → diff ≡ 0
unfolding fold_difference
fold_start-zero diff [] ys h = h
fold_start-zero diff (x ∷ xs) [] h = h
fold_start-zero diff (x ∷ xs) (y ∷ ys) h =
    ((bit_or-zero_iff diff (bit_xor x y)).0 (fold_start-zero (bit_or diff (bit_xor x y)) xs ys h)).0

fold_self : (a : Text) → fold_difference 0 a a ≡ 0
unfolding fold_difference
fold_self [] = refl
fold_self (x ∷ xs) =
    rw ((bit_or-zero_iff 0 (bit_xor x x)).1 (refl, (bit_xor-zero_iff x x).1 refl)) (fold_self xs)

-- The comparison holds exactly for equal texts, if both are shorter than 2 ^ 32 bytes.
pub constant_time_equals_iff :
    (a b : Text)
    → length a < 2 ^ 32
    → length b < 2 ^ 32
    → (constant_time_equals a b ≡ true) ↔ (a ≡ b)
unfolding constant_time_equals
constant_time_equals_iff a b p q = (
  λ h.
      let z = (==_iff _ 0).0 h in
      (fold-zero _ a b (eq_of_xor_32 _ _ p q (fold_start-zero _ a b z)) z).1,
  λ e. rw e (rw ((bit_xor-zero_iff (length b) (length b)).1 refl) ((==_iff _ 0).1 (fold_self b))),
)

length-to_hex : (bytes : List ℕ) → length (to_hex bytes) ≡ 2 * length bytes
unfolding to_hex
length-to_hex [] = refl
length-to_hex (b ∷ bs) = omega (arith, length-to_hex bs)

-- A signature has 64 characters.
pub length-hmac_sha256_hex : (key message : Text) → length (hmac_sha256_hex key message) ≡ 64
unfolding hmac_sha256_hex
length-hmac_sha256_hex key message = omega (arith, length-to_hex (sha256 _), length-sha256 _)
