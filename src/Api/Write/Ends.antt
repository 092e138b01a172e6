-- ===== src/Api/Write/Ends.antt =====
-- The write returns when the calls are interrupted only finitely often.
use easy_failover.Base.{
  ℕ, zero, suc, ◌+◌, ◌≤◌, ◌<◌, Text, Bool, true, false, Bool-cases, Option, some, Option-cases, [],
  ◌∷◌, length, length-drop, drop, ◌≡◌, refl, arith, inl, inr, if_cases,
}
use easy_failover.Api.Write.{
  FileSystem, wrote, interrupted, write_all, written_temp, write_temp, replace_file,
  atomic_write_config_with_backup, back_up, temp_path,
}
use easy_failover.Api.Write.Loop.{Written-cases}

-- How often ::write may still write nothing, through an interruption or a count of 0: no call adds to
-- it, and each such write of a text that is not empty takes one off.
pub record IsPatient {W : Type 0} (fs : FileSystem W) (stalls : W → ℕ) : Type 0 where
  pub after_copy : (from to : Text) (w : W) → stalls (fs.copy_file from to w).1 ≤ stalls w
  pub after_random : (w : W) → stalls (fs.random_device w).1 ≤ stalls w
  pub after_open : (at : Text) (w : W) → stalls (fs.open_temp at w).1 ≤ stalls w
  pub after_progress : (fd : ℕ) (bytes : Text) (w : W) → stalls (fs.write fd bytes w).1 ≤ stalls w
  pub after_nothing :
      (fd c : ℕ) (cs : Text) (w : W)
      → (fs.write fd (c ∷ cs) w).0 ≡ wrote 0
      → stalls (fs.write fd (c ∷ cs) w).1 < stalls w
  pub after_interruption :
      (fd c : ℕ) (cs : Text) (w : W)
      → (fs.write fd (c ∷ cs) w).0 ≡ interrupted
      → stalls (fs.write fd (c ∷ cs) w).1 < stalls w

abbrev Returns : {W : Type 0} → Option (Bool × W) → Type 0
Returns {W} result = (r : Bool × W) × (result ≡ some r)

module _ {W : Type 0} {fs : FileSystem W} {stalls : W → ℕ} (patient : IsPatient fs stalls) where
  write_all-Returns :
      (fuel fd : ℕ) (rest : Text) (w : W)
      → length rest + stalls w < fuel
      → Returns (write_all fs fuel fd rest w)
  unfolding write_all
  write_all-Returns zero fd rest w h = absurd (omega arith)
  write_all-Returns (suc fuel) fd [] w h = ((true, w), refl)
  write_all-Returns (suc fuel) fd (c ∷ cs) w h =
      let w1 = (fs.write fd (c ∷ cs) w).1 in
      let no_more = patient.after_progress fd (c ∷ cs) w in
      elim (Written-cases (fs.write fd (c ∷ cs) w).0) [
        | inl (zero, k) ↦
            rw (k, write_all)
              (write_all-Returns fuel fd (c ∷ cs) w1
                (omega (arith, patient.after_nothing fd c cs w k)))
        | inl (suc n, k) ↦
            rw (k, write_all)
              (write_all-Returns fuel fd (drop n cs) w1 (omega (arith, no_more, length-drop n cs)))
        | inr (inl k) ↦
            rw (k, write_all)
              (write_all-Returns fuel fd (c ∷ cs) w1
                (omega (arith, patient.after_interruption fd c cs w k)))
        | inr (inr k) ↦ rw (k, write_all) ((false, w1), refl)
      ]

  write_temp-Returns :
      (fuel : ℕ) (target temp contents : Text) (w : W)
      → length contents + stalls w < fuel
      → Returns (write_temp fs fuel target temp contents w)
  unfolding write_temp written_temp
  write_temp-Returns fuel target temp contents w h =
      let (found, w1) = fs.open_temp temp w in
      elim (Option-cases found) [
        | inl e ↦ rw (e, write_temp) ((false, w1), refl)
        | inr (fd, e) ↦
            let ((ok, w2), k) =
              write_all-Returns fuel fd contents w1 (omega (arith, patient.after_open temp w)) in
            elim (Bool-cases ok) [
              | inl y ↦ rw (e, write_temp, k, y, written_temp) (_, refl)
              | inr n ↦ rw (e, write_temp, k, n, written_temp) (_, refl)
            ]
      ]

-- If no call but ::write counts against a finite number of interruptions and empty writes, the write
-- returns a result for every behaviour of the system, with fuel beyond the length of the contents and
-- that number together.
pub atomic_write_returns :
    {W : Type 0} {fs : FileSystem W} {stalls : W → ℕ} (patient : IsPatient fs stalls) (fuel : ℕ)
    (target contents backup : Text) (w : W)
    → length contents + stalls w < fuel
    → (r : Bool × W) × (atomic_write_config_with_backup fs fuel target contents backup w ≡ some r)
unfolding atomic_write_config_with_backup replace_file back_up
atomic_write_returns {fs = fs} {stalls} patient fuel target contents backup w h =
    let (backed_up, w1) = back_up fs target backup w in
    let (random, w2) = fs.random_device w1 in
    let no_more : stalls w1 ≤ stalls w =
      if_cases (λ (x : Bool × _). stalls x.1 ≤ stalls w) (fs.exists target w) _ _
        (λ _. patient.after_copy target backup w) (λ _. omega arith) in
    if_cases Returns backed_up _ _
      (λ _.
        write_temp-Returns patient fuel target (temp_path target random (fs.getpid w2)) contents w2
          (omega (arith, no_more, patient.after_random w1)))
      (λ _. ((false, w1), refl))
