-- ===== src/Base/Search.antt =====
-- std::string's find, rfind(…, 0), find_first_not_of and find_last_not_of. A position is given by the
-- text before it and the text from it on.
use Prim.Native.Nat.{ℕ, ◌+◌}
use mathlib.Core.Bool.{Bool, true, false, ◌&&◌}
use mathlib.Core.Option.{Option, none, some}
use mathlib.Core.List.{List, [], ◌∷◌, ◌++◌}
use easy_failover.Base.Tests.{leb, ◌==◌, if◌then◌else◌}
use easy_failover.Base.Lists.{length, is_empty, drop, any}
use easy_failover.Base.Bytes.{Text}

-- text.rfind(pattern, 0) == 0.
unfoldable pub starts_with : Text → Text → Bool
starts_with [] text = true
starts_with (p ∷ ps) [] = false
starts_with (p ∷ ps) (c ∷ cs) = (p == c) && starts_with ps cs

abbrev grow : ℕ → Option (Text × Text) → Option (Text × Text)
grow c none = none
grow c (some (head, tail)) = some (c ∷ head, tail)

-- text.find(pattern) for a pattern that is not empty: what stands before the first occurrence, and
-- what stands after it.
unfoldable pub cut : Text → Text → Option (Text × Text)
unfolding starts_with
cut pattern [] = none
cut pattern (c ∷ cs) =
    let later = cut pattern cs in
    if starts_with pattern (c ∷ cs) then some ([], drop (length pattern) (c ∷ cs)) else grow c later

unfoldable pub one_of : Text → ℕ → Bool
one_of set c = any (λ s. c == s) set

-- text.substr(text.find_first_not_of(set)), empty if there is no such byte.
unfoldable pub skip : Text → Text → Text
unfolding one_of
skip set [] = []
skip set (c ∷ cs) = if one_of set c then skip set cs else c ∷ cs

-- text.substr(0, text.find_last_not_of(set) + 1), empty if there is no such byte.
unfoldable pub trim_end : Text → Text → Text
unfolding one_of
trim_end set [] = []
trim_end set (c ∷ cs) =
    let rest = trim_end set cs in if is_empty rest && one_of set c then [] else c ∷ rest

-- The text up to the first byte `stop`, or all of it.
unfoldable pub until : ℕ → Text → Text
until stop [] = []
until stop (c ∷ cs) = if c == stop then [] else c ∷ until stop cs

-- std::tolower in the "C" locale.
unfoldable pub to_lower : ℕ → ℕ
to_lower c = if leb b'A' c && leb c b'Z' then c + 32 else c

abbrev last_here : ℕ → ℕ → Text → Option (Text × Text) → Option (Text × Text)
last_here stop c cs none = if c == stop then some ([], cs) else none
last_here stop c cs (some parts) = grow c (some parts)

-- text.rfind(stop) for one byte: what stands before its last occurrence, and what stands after it.
unfoldable pub cut_last : ℕ → Text → Option (Text × Text)
cut_last stop [] = none
cut_last stop (c ∷ cs) = last_here stop c cs (cut_last stop cs)

-- The operators << of one std::ostringstream, in their order.
unfoldable pub join : List Text → Text
join [] = []
join (t ∷ ts) = t ++ join ts
