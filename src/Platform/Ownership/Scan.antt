-- ===== src/Platform/Ownership/Scan.antt =====
-- The scan of the output of `ip addr show` against a reading of the output as a list of words.
use easy_failover.Base.{
  ℕ, zero, suc, ◌≤◌, Text, codes, eqb, Bool, true, false, ◌||◌, ◌&&◌, List, [], ◌∷◌, ◌++◌, In,
  length, ◌≡◌, ◌≢◌, refl, sym, ap, subst, ◌∙◌, ◌⊎◌, inl, inr, arith, if◌then◌else◌, Bool-cases,
}
use easy_failover.Platform.VipManager.{address_without_prefix}
use easy_failover.Platform.Ownership.{
  is_space, skip_space, token, after_token, token_matches_address, scan, output_contains_vip,
}

-- The words of a text: what stands between white space and is not empty.
push_word : ℕ → List Text → List Text
push_word c [] = (c ∷ []) ∷ []
push_word c (w ∷ ws) = (c ∷ w) ∷ ws

split_words : Text → List Text
unfolding push_word
split_words [] = [] ∷ []
split_words (c ∷ cs) = if is_space c then [] ∷ split_words cs else push_word c (split_words cs)

drop_empty : List Text → List Text
drop_empty [] = []
drop_empty ([] ∷ ws) = drop_empty ws
drop_empty ((c ∷ cs) ∷ ws) = (c ∷ cs) ∷ drop_empty ws

pub words_of : Text → List Text
unfolding split_words drop_empty
words_of t = drop_empty (split_words t)

-- A word "inet" whose next word is the configured address, with or without its prefix. The words of
-- such a pair are read once; at the end of the text the next word is empty.
pub names_vip : Text → Text → List Text → Bool
names_vip configured host [] = false
names_vip configured host (w ∷ []) = eqb w (codes "inet") && (eqb [] configured || eqb [] host)
names_vip configured host (w ∷ v ∷ ws) =
    let after_pair = names_vip configured host ws in
    let after_word = names_vip configured host (v ∷ ws) in
    if eqb w (codes "inet") then eqb v configured || eqb v host || after_pair else after_word

words_nil : words_of [] ≡ []
unfolding words_of
words_nil = refl

-- The first part of a split text and the rest.
split_words-token :
    (t : Text)
    → (ws : List Text) × (split_words t ≡ token t ∷ ws) × (words_of (after_token t) ≡ drop_empty ws)
unfolding split_words token after_token words_of push_word
split_words-token [] = ([], refl, refl)
split_words-token (c ∷ cs) =
    let (ws, e, f) = split_words-token cs in
    elim (Bool-cases (is_space c)) [
      | inl s ↦ (split_words cs, ground (arith, s), ground (arith, s))
      | inr n ↦ (ws, ground (arith, n, e), ground (arith, n, f))
    ]

words_skip : (t : Text) → words_of (skip_space t) ≡ words_of t
unfolding words_of split_words skip_space
words_skip [] = refl
words_skip (c ∷ cs) = ground (arith, words_skip cs)

words_token :
    (c : ℕ) (cs : Text)
    → is_space c ≡ false
    → words_of (c ∷ cs) ≡ token (c ∷ cs) ∷ words_of (after_token (c ∷ cs))
unfolding words_of split_words token after_token push_word drop_empty
words_token c cs n = let (ws, e, f) = split_words-token cs in ground (arith, n, e, f)

skip_cases :
    (t : Text)
    → (skip_space t ≡ []) ⊎ ((c : ℕ) × (cs : Text) × (skip_space t ≡ c ∷ cs) × (is_space c ≡ false))
unfolding skip_space
skip_cases [] = inl refl
skip_cases (c ∷ cs) = elim (Bool-cases (is_space c)) [
  | inl s ↦ rw s (skip_cases cs)
  | inr n ↦ rw n (inr (c, cs, refl, n))
]

-- A text has no words, or its first word and those after it.
words_cases :
    (t : Text)
    → ((skip_space t ≡ []) × (words_of t ≡ []))
      ⊎ (words_of t ≡ token (skip_space t) ∷ words_of (after_token (skip_space t)))
words_cases t = elim (skip_cases t) [
  | inl e ↦ inl (e, sym (words_skip t) ∙ ap words_of e ∙ words_nil)
  | inr (c, cs, e, n) ↦ inr (
      sym (words_skip t)
      ∙ subst (λ u. words_of u ≡ token u ∷ words_of (after_token u)) (sym e) (words_token c cs n))
]

length-skip_space : (t : Text) → length (skip_space t) ≤ length t
unfolding skip_space
length-skip_space [] = omega arith
length-skip_space (c ∷ cs) = ground (arith, length-skip_space cs)

length-after_token : (t : Text) → length (after_token t) ≤ length t
unfolding after_token
length-after_token [] = omega arith
length-after_token (c ∷ cs) = ground (arith, length-after_token cs)

-- Each round of the scan leaves a shorter rest.
next_shorter : (c : ℕ) (cs : Text) → length (after_token (skip_space (c ∷ cs))) ≤ length cs
unfolding skip_space after_token
next_shorter c cs =
    ground (arith, length-after_token cs, length-after_token (skip_space cs), length-skip_space cs)

module _ (configured host : Text) where
  scan_nil : (n : ℕ) → scan n configured host [] ≡ false
  unfolding scan
  scan_nil zero = refl
  scan_nil (suc n) = refl

  -- A round of the scan, with its two tokens and the answers for the two rests.
  abbrev round_answer : Text → Text → Bool → Bool → Bool
  round_answer first second later after_pair =
      if eqb first (codes "inet")
      then (if token_matches_address second configured host then true else after_pair)
      else later

  end_answer :
      (first second : Text) (later after_pair : Bool)
      → first ≡ []
      → later ≡ false
      → round_answer first second later after_pair ≡ false
  unfolding eqb codes
  end_answer first second later after_pair h k = ground (arith, h, k)

  last_answer :
      (first second : Text) (later after_pair : Bool)
      → second ≡ []
      → later ≡ false
      → after_pair ≡ false
      → round_answer first second later after_pair ≡ names_vip configured host (first ∷ [])
  unfolding names_vip token_matches_address
  last_answer first second later after_pair h k l = rw (h, k, l) (ground arith)

  pair_answer :
      (first second : Text) (ws : List Text) (later after_pair : Bool)
      → later ≡ names_vip configured host (second ∷ ws)
      → after_pair ≡ names_vip configured host ws
      → round_answer first second later after_pair ≡ names_vip configured host (first ∷ second ∷ ws)
  unfolding names_vip token_matches_address
  pair_answer first second ws later after_pair k l = rw (k, l) (ground arith)

  -- With the length of the text as fuel the scan answers as the words say.
  scan_words :
      (n : ℕ) (t : Text)
      → length t ≤ n
      → scan n configured host t ≡ names_vip configured host (words_of t)
  unfolding scan names_vip token after_token
  scan_words zero [] h = rw words_nil refl
  scan_words zero (c ∷ cs) h = absurd (omega arith)
  scan_words (suc n) [] h = rw words_nil refl
  scan_words (suc n) (c ∷ cs) h =
      let start = skip_space (c ∷ cs) in
      let rest = after_token start in
      let next = skip_space rest in
      let after = after_token next in
      let r : length rest ≤ n = omega (arith, next_shorter c cs) in
      let q : length after ≤ n =
        omega (arith, length-after_token next, length-skip_space rest, r) in
      let names = names_vip configured host in
      elim (words_cases (c ∷ cs)) [
        | inl (e, w) ↦
            end_answer (token start) (token next) _ _ (ap token e)
              (ap (λ u. scan n configured host (after_token u)) e ∙ scan_nil n)
            ∙ sym (ap names w)
        | inr w ↦ elim (words_cases rest) [
          | inl (e, v) ↦
              last_answer (token start) (token next) _ _ (ap token e)
                (scan_words n rest r ∙ ap names v)
                (ap (λ u. scan n configured host (after_token u)) e ∙ scan_nil n)
              ∙ sym (ap names (w ∙ ap (λ u. token start ∷ u) v))
          | inr v ↦
              pair_answer (token start) (token next) (words_of after) _ _
                (scan_words n rest r ∙ ap names v) (scan_words n after q)
              ∙ sym (ap names (w ∙ ap (λ u. token start ∷ u) v))
        ]
      ]

-- The address before its prefix, where it has one.
abbrev pub IsHost : Text → Text → Type 0
IsHost host configured =
    (¬ In b'/' host)
    × ((configured ≡ host) ⊎ ((prefix : Text) × (configured ≡ host ++ b'/' ∷ prefix)))

before_slash :
    (host prefix : Text) → ¬ In b'/' host → address_without_prefix (host ++ b'/' ∷ prefix) ≡ host
unfolding address_without_prefix
before_slash [] prefix n = refl
before_slash (c ∷ cs) prefix n =
    let other : c ≢ b'/' = λ e. n (inl (sym e)) in
    ground (arith, before_slash cs prefix (λ i. n (inr i)), other)

without_slash : (host : Text) → ¬ In b'/' host → address_without_prefix host ≡ host
unfolding address_without_prefix
without_slash [] n = refl
without_slash (c ∷ cs) n =
    let other : c ≢ b'/' = λ e. n (inl (sym e)) in
    ground (arith, without_slash cs (λ i. n (inr i)), other)

IsHost-eq :
    (host configured : Text) → IsHost host configured → address_without_prefix configured ≡ host
IsHost-eq host configured (n, inl e) = ap address_without_prefix e ∙ without_slash host n
IsHost-eq host configured (n, inr (prefix, e)) =
    ap address_without_prefix e ∙ before_slash host prefix n

-- The probe finds the configured address exactly if, among the words of the output, a word "inet" is
-- followed by that address or by its part before the prefix; the pairs are read from left to right.
pub output_contains_vip-words :
    (output configured host : Text)
    → IsHost host configured
    → output_contains_vip output configured ≡ names_vip configured host (words_of output)
unfolding output_contains_vip
output_contains_vip-words output configured host h =
    ap (λ x. scan (length output) configured x output) (IsHost-eq host configured h)
    ∙ scan_words configured host (length output) output (omega arith)
