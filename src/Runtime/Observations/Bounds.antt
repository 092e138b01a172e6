-- ===== src/Runtime/Observations/Bounds.antt =====
-- The vectors of observations are bounded: they hold the latest observations, up to the limit.
use easy_failover.Base.{
  ℕ, zero, suc, ◌+◌, ◌-◌, ◌≤◌, ◌<◌, ltb, ◌≡◌, refl, sym, ◌∙◌, ap, List, [], ◌∷◌, ◌++◌, length,
  length-append, length-drop, ◌&&◌, drop, arith, if_cases,
}
use easy_failover.Runtime.Observations.{push_observation, append_observations}

module _ {A : Type 0} where
  append_assoc : (xs ys zs : List A) → (xs ++ ys) ++ zs ≡ xs ++ (ys ++ zs)
  append_assoc [] ys zs = refl
  append_assoc (x ∷ xs) ys zs = ap (λ l. x ∷ l) (append_assoc xs ys zs)

  append_nil : (xs : List A) → xs ++ [] ≡ xs
  append_nil [] = refl
  append_nil (x ∷ xs) = ap (λ l. x ∷ l) (append_nil xs)

  drop_all : (n : ℕ) (xs : List A) → n ≡ 0 → drop n xs ≡ xs
  drop_all zero xs h = refl
  drop_all (suc n) xs h = ground arith

  -- One element goes before an append: the drop of the whole is one longer.
  drop-append_one :
      (n : ℕ) (xs ys : List A) → 0 < length xs → drop n (drop 1 xs ++ ys) ≡ drop (suc n) (xs ++ ys)
  drop-append_one n [] ys h = ground arith
  drop-append_one n (x ∷ xs) ys h = refl

  -- A vector at the limit, and one below it, given the law for the observations that follow.
  full :
      (xs : List A) (y : A) (ys : List A) (limit : ℕ)
      → 0 < limit
      → length xs ≡ limit
      → append_observations (drop 1 (xs ++ y ∷ [])) ys limit
        ≡ drop (length (drop 1 (xs ++ y ∷ [])) + length ys - limit) (drop 1 (xs ++ y ∷ []) ++ ys)
      → append_observations (drop 1 (xs ++ y ∷ [])) ys limit
        ≡ drop (length xs + suc (length ys) - limit) (xs ++ y ∷ ys)
  full xs y ys limit p e ih =
      let n : length (xs ++ y ∷ []) ≡ length xs + 1 = length-append xs (y ∷ []) in
      let k : length (drop 1 (xs ++ y ∷ [])) ≡ length xs =
        omega (arith, length-drop 1 (xs ++ y ∷ []), n) in
      let m : length (drop 1 (xs ++ y ∷ [])) + length ys - limit ≡ length ys = omega (arith, k) in
      let m' : length xs + suc (length ys) - limit ≡ suc (length ys) = omega arith in
      ih
      ∙ ap (λ i. drop i (drop 1 (xs ++ y ∷ []) ++ ys)) m
      ∙ drop-append_one (length ys) (xs ++ y ∷ []) ys (omega (arith, n))
      ∙ ap (drop (suc (length ys))) (append_assoc xs (y ∷ []) ys)
      ∙ ap (λ i. drop i (xs ++ y ∷ ys)) (sym m')

  room :
      (xs : List A) (y : A) (ys : List A) (limit : ℕ)
      → append_observations (xs ++ y ∷ []) ys limit
        ≡ drop (length (xs ++ y ∷ []) + length ys - limit) ((xs ++ y ∷ []) ++ ys)
      → append_observations (xs ++ y ∷ []) ys limit
        ≡ drop (length xs + suc (length ys) - limit) (xs ++ y ∷ ys)
  room xs y ys limit ih =
      let n : length (xs ++ y ∷ []) ≡ length xs + 1 = length-append xs (y ∷ []) in
      ih
      ∙ ap (λ i. drop i ((xs ++ y ∷ []) ++ ys)) (omega (arith, n))
      ∙ ap (drop (length xs + suc (length ys) - limit)) (append_assoc xs (y ∷ []) ys)

  -- With a limit above 0, appending observations to a vector within the limit keeps exactly the last
  -- `limit` of all of them, in order.
  pub append_observations-latest :
      (xs ys : List A) (limit : ℕ)
      → 0 < limit
      → length xs ≤ limit
      → append_observations xs ys limit ≡ drop (length xs + length ys - limit) (xs ++ ys)
  unfolding append_observations push_observation
  append_observations-latest xs [] limit p h =
      rw (append_nil, drop_all (length xs + 0 - limit) xs (omega arith)) refl
  append_observations-latest xs (y ∷ ys) limit p h =
      let pushed = xs ++ y ∷ [] in
      let n : length pushed ≡ length xs + 1 = length-append xs (y ∷ []) in
      if_cases
        (λ zs.
          append_observations zs ys limit
          ≡ drop (length xs + suc (length ys) - limit) (xs ++ y ∷ ys))
        (ltb 0 limit && ltb limit (length pushed)) (drop 1 pushed) pushed
        (λ t. full xs y ys limit p (ground (arith, n)) (
          append_observations-latest (drop 1 pushed) ys limit p
            (ground (arith, n, length-drop 1 pushed))))
        (λ t. room xs y ys limit (append_observations-latest pushed ys limit p (ground (arith, n))))

  pub length-append_observations :
      (xs ys : List A) (limit : ℕ)
      → 0 < limit
      → length xs ≤ limit
      → length (append_observations xs ys limit) ≤ limit
  length-append_observations xs ys limit p h =
      let n = length xs + length ys - limit in
      let e : length (append_observations xs ys limit) ≡ length (drop n (xs ++ ys)) =
        ap length (append_observations-latest xs ys limit p h) in
      omega (arith, e, length-drop n (xs ++ ys), length-append xs ys)

  pub length-push_observation :
      (xs : List A) (x : A) (limit : ℕ)
      → 0 < limit
      → length xs ≤ limit
      → length (push_observation xs x limit) ≤ limit
  unfolding append_observations
  length-push_observation xs x limit p h = length-append_observations xs (x ∷ []) limit p h
