-- ===== src/Discovery/Beacon/Delimiter.antt =====
-- The split of a text at the last place of a pattern: std::string_view::rfind in verifySignedBeacon.
use easy_failover.Base.{
  ℕ, ◌≤◌, Text, ◌≡◌, refl, subst, true, false, Option, none, some, [], ◌∷◌, ◌++◌, length, arith,
}
use easy_failover.Discovery.Beacon.{starts_with, rfind, rfind_step}

starts_with_self : (p b : Text) → starts_with p (p ++ b) ≡ true
unfolding starts_with
starts_with_self [] b = refl
starts_with_self (c ∷ p) b = ground (arith, starts_with_self p b)

starts_with_here : (p b t : Text) → p ++ b ≡ t → starts_with p t ≡ true
starts_with_here p b t e = subst (λ x. starts_with p x ≡ true) e (starts_with_self p b)

pub starts_with-append : (p t : Text) → starts_with p t ≡ true → (b : Text) × (p ++ b ≡ t)
unfolding starts_with
starts_with-append [] t h = (t, refl)
starts_with-append (c ∷ p) [] h = absurd (cc h)
starts_with-append (c ∷ p) (d ∷ t) h =
    let (b, e) = starts_with-append p t (ground arith) in (b, ground (arith, e))

-- What stands before and from the found place.
abbrev pub SplitAt : Text → Text → Text → Text → Type 0
SplitAt p t before rest = (before ++ rest ≡ t) × ((b : Text) × (p ++ b ≡ rest))

rfind_step-SplitAt :
    (p : Text) (c : ℕ) (cs before rest : Text) (o : Option (Text × Text))
    → ((b r : Text) → o ≡ some (b, r) → SplitAt p cs b r)
    → rfind_step p c cs o ≡ some (before, rest)
    → SplitAt p (c ∷ cs) before rest
unfolding rfind_step
rfind_step-SplitAt p c cs before rest none ih h =
    let (b, e) = starts_with-append p (c ∷ cs) (ground arith) in
    (ground arith, (b, ground (arith, e)))
rfind_step-SplitAt p c cs before rest (some (b, r)) ih h =
    let (w, (d, e)) = ih b r refl in (ground (arith, w), (d, ground (arith, e)))

pub rfind-SplitAt :
    (p t before rest : Text) → rfind p t ≡ some (before, rest) → SplitAt p t before rest
unfolding rfind
rfind-SplitAt p [] before rest h =
    let (b, e) = starts_with-append p [] (ground arith) in (ground arith, (b, ground (arith, e)))
rfind-SplitAt p (c ∷ cs) before rest h =
    rfind_step-SplitAt p c cs before rest (rfind p cs) (λ b r e. rfind-SplitAt p cs b r e) h

rfind_step-none :
    (p : Text) (c : ℕ) (cs : Text) (o : Option (Text × Text))
    → rfind_step p c cs o ≡ none
    → (o ≡ none) × (starts_with p (c ∷ cs) ≡ false)
unfolding rfind_step
rfind_step-none p c cs none h = (refl, ground arith)
rfind_step-none p c cs (some (b, r)) h = absurd (cc h)

rfind-none : (p t : Text) → rfind p t ≡ none → (a b : Text) → ¬ (a ++ (p ++ b) ≡ t)
unfolding rfind
rfind-none p [] h [] b e = cc (h, starts_with_here p b [] e)
rfind-none p [] h (x ∷ a) b e = cc e
rfind-none p (c ∷ cs) h [] b e =
    cc ((rfind_step-none p c cs (rfind p cs) h).1, starts_with_here p b (c ∷ cs) e)
rfind-none p (c ∷ cs) h (x ∷ a) b e =
    rfind-none p cs (rfind_step-none p c cs (rfind p cs) h).0 a b (cc e)

-- Every place of the pattern is at most as far as `before` reaches.
abbrev pub IsLastPlace : Text → Text → Text → Type 0
IsLastPlace p t before = (a b : Text) → a ++ (p ++ b) ≡ t → length a ≤ length before

rfind_step-IsLastPlace :
    (p : Text) (c : ℕ) (cs before rest : Text) (o : Option (Text × Text))
    → ((b r : Text) → o ≡ some (b, r) → IsLastPlace p cs b)
    → (o ≡ none → (a b : Text) → ¬ (a ++ (p ++ b) ≡ cs))
    → rfind_step p c cs o ≡ some (before, rest)
    → IsLastPlace p (c ∷ cs) before
unfolding rfind_step
rfind_step-IsLastPlace p c cs before rest o ih missing h [] b e = omega arith
rfind_step-IsLastPlace p c cs before rest none ih missing h (x ∷ a) b e =
    absurd (missing refl a b (cc e))
rfind_step-IsLastPlace p c cs before rest (some (d, r)) ih missing h (x ∷ a) b e =
    let l : length a ≤ length d = ih d r refl a b (cc e) in
    let q : before ≡ c ∷ d = cc h in rw q (omega (arith, l))

pub rfind-IsLastPlace :
    (p t before rest : Text) → rfind p t ≡ some (before, rest) → IsLastPlace p t before
unfolding rfind
rfind-IsLastPlace p [] before rest h [] b e = omega arith
rfind-IsLastPlace p [] before rest h (x ∷ a) b e = absurd (cc e)
rfind-IsLastPlace p (c ∷ cs) before rest h a b e =
    rfind_step-IsLastPlace p c cs before rest (rfind p cs) (λ b r e. rfind-IsLastPlace p cs b r e)
      (rfind-none p cs) h a b e
