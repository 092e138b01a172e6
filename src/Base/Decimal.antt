-- ===== src/Base/Decimal.antt =====
-- std::to_string and std::from_chars of decimal numbers.
use Prim.Native.Nat.{ℕ, zero, suc, ◌+◌, ◌-◌, ◌*◌, ◌/◌, ◌%◌, ◌^◌, ◌≤◌}
use native.Mathlib.Omega.{arith}
use mathlib.Core.Bool.{Bool, true, false, ◌&&◌}
use mathlib.Core.Option.{Option, none, some}
use mathlib.Core.List.{[], ◌∷◌, ◌++◌}
use easy_failover.Base.Tests.{ltb, leb, if◌then◌else◌, ◌==◌, if_cases}
use easy_failover.Base.Lists.{All, All-append}
use easy_failover.Base.Int.{ℤ, pos, negsuc, ◌-ℤ◌}
use easy_failover.Base.Bytes.{Text}

-- The digits of a number, the highest first; a number has fewer digits than its value plus one.
decimal_fuel : ℕ → ℕ → Text
decimal_fuel zero n = []
decimal_fuel (suc f) n =
    let shorter = decimal_fuel f (n / 10) ++ (b'0' + n % 10) ∷ [] in
    if ltb n 10 then (b'0' + n) ∷ [] else shorter

unfoldable pub decimal : ℕ → Text
unfolding decimal_fuel
decimal n = decimal_fuel (suc n) n

unfoldable pub decimal_ℤ : ℤ → Text
unfolding decimal
decimal_ℤ (pos n) = decimal n
decimal_ℤ (negsuc n) = b'-' ∷ decimal (suc n)

unfoldable pub is_digit : ℕ → Bool
is_digit c = leb b'0' c && leb c b'9'

-- The number that the leading digits denote, after `acc`; the rest is not looked at.
unfoldable pub leading : ℕ → Text → ℕ
unfolding is_digit
leading acc [] = acc
leading acc (c ∷ cs) = if is_digit c then leading (acc * 10 + (c - b'0')) cs else acc

starts_number : Text → Bool
unfolding is_digit
starts_number [] = false
starts_number (c ∷ cs) = is_digit c

-- std::from_chars into an unsigned number of `bound` values that holds `old`: without a digit, or out
-- of range, the variable keeps its value.
unfoldable pub from_chars_unsigned : ℕ → ℕ → Text → ℕ
unfolding leading starts_number
from_chars_unsigned bound old text =
    if starts_number text && ltb (leading 0 text) bound then leading 0 text else old

-- std::from_chars into an `int`: one '-' may stand in front.
unfoldable pub from_chars_int : ℤ → Text → ℤ
unfolding leading starts_number
from_chars_int old [] = old
from_chars_int old (c ∷ cs) =
    if c == b'-'
    then (if starts_number cs && leb (leading 0 cs) (2 ^ 31)
        then (elim (leading 0 cs) [ zero ↦ pos 0 | suc n ↦ negsuc n ])
        else old)
    else if starts_number (c ∷ cs) && ltb (leading 0 (c ∷ cs)) (2 ^ 31)
    then pos (leading 0 (c ∷ cs))
    else old

-- The magnitude of a number of type `int`, or std::out_of_range.
abbrev in_int : Bool → ℕ → Option ℤ
in_int minus n =
    if minus
    then (if leb n (2 ^ 31) then some (pos 0 -ℤ pos n) else none)
    else if ltb n (2 ^ 31)
    then some (pos n)
    else none

unfoldable pub unsigned_digits : Bool → Text → Option ℤ
unfolding starts_number leading
unsigned_digits minus text = if starts_number text then in_int minus (leading 0 text) else none

-- std::stoi of a text without white space in front: one sign may stand first, and the rest after the
-- digits is not looked at. It throws without a digit, and out of range.
unfoldable pub stoi : Text → Option ℤ
unfolding unsigned_digits
stoi [] = none
stoi (c ∷ cs) =
    if c == b'-'
    then unsigned_digits true cs
    else if c == b'+'
    then unsigned_digits false cs
    else unsigned_digits false (c ∷ cs)

decimal_fuel-digits : (f n : ℕ) → All (λ c. b'0' ≤ c) (decimal_fuel f n)
unfolding decimal_fuel
decimal_fuel-digits zero n = tt
decimal_fuel-digits (suc f) n =
    if_cases (All (λ c. b'0' ≤ c)) (ltb n 10) _ _ (λ _. (omega arith, tt))
      (λ _. All-append _ _ _ (decimal_fuel-digits f (n / 10)) (omega arith, tt))

-- No byte of a decimal is below the digits.
pub decimal-digits : (n : ℕ) → All (λ c. b'0' ≤ c) (decimal n)
unfolding decimal
decimal-digits n = decimal_fuel-digits (suc n) n
