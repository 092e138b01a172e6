-- ===== src/Api/Auth/Compare.antt =====
-- The comparison of tokens decides equality.
use Prim.Native.Nat.{bit_or, bit_xor}
use easy_failover.Base.{ℕ, ◌^◌, ◌<◌, ==_iff, true, [], ◌∷◌, length, Text, ◌≡◌, refl, ◌↔◌, arith}
use easy_failover.Base.Bits.{bit_or-zero_iff, bit_xor-zero_iff, eq_of_xor_32}
use easy_failover.Api.Auth.{constant_time_token_equals, token_difference}

start-zero : (diff : ℕ) (p e : Text) → token_difference diff p e ≡ 0 → diff ≡ 0
unfolding token_difference
start-zero diff p [] h = h
start-zero diff [] (e ∷ es) h =
    ((bit_or-zero_iff diff (bit_xor 0 e)).0 (start-zero (bit_or diff (bit_xor 0 e)) [] es h)).0
start-zero diff (p ∷ ps) (e ∷ es) h =
    ((bit_or-zero_iff diff (bit_xor p e)).0 (start-zero (bit_or diff (bit_xor p e)) ps es h)).0

bytes_agree : (diff : ℕ) (p e : Text) → length p ≡ length e → token_difference diff p e ≡ 0 → p ≡ e
unfolding token_difference
bytes_agree diff [] [] l h = refl
bytes_agree diff (p ∷ ps) [] l h = absurd (omega arith)
bytes_agree diff [] (e ∷ es) l h = absurd (omega arith)
bytes_agree diff (p ∷ ps) (e ∷ es) l h =
    let now =
      ((bit_or-zero_iff diff (bit_xor p e)).0 (start-zero (bit_or diff (bit_xor p e)) ps es h)).1 in
    cc ((bit_xor-zero_iff p e).0 now, bytes_agree (bit_or diff (bit_xor p e)) ps es (omega arith) h)

difference_self : (t : Text) → token_difference 0 t t ≡ 0
unfolding token_difference
difference_self [] = refl
difference_self (c ∷ cs) =
    rw ((bit_or-zero_iff 0 (bit_xor c c)).1 (refl, (bit_xor-zero_iff c c).1 refl))
      (difference_self cs)

-- For texts shorter than 2 ^ 32 bytes the comparison of a presented token with the expected one, which
-- reads a missing byte as 0, holds exactly when the two are equal.
pub constant_time_token_equals_iff :
    (presented expected : Text)
    → length presented < 2 ^ 32
    → length expected < 2 ^ 32
    → (constant_time_token_equals presented expected ≡ true) ↔ (presented ≡ expected)
unfolding constant_time_token_equals
constant_time_token_equals_iff p e hp he = (
  λ h.
      let z = (==_iff _ 0).0 h in bytes_agree _ p e (eq_of_xor_32 _ _ hp he (start-zero _ p e z)) z,
  λ same.
      rw same
        (rw ((bit_xor-zero_iff (length e) (length e)).1 refl) ((==_iff _ 0).1 (difference_self e))),
)
