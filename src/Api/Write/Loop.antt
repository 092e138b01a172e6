-- ===== src/Api/Write/Loop.antt =====
-- The loop over ::write and the synchronisation of the directory.
use mathlib.Core.List.{append_assoc, append-nil}
use easy_failover.Base.{
  ℕ, zero, suc, Text, Bool, true, Option, some, Option-cases, [], ◌∷◌, ◌++◌, take, drop, ◌≡◌, ◌≢◌,
  refl, ap, ◌∙◌, ◌⊎◌, inl, inr,
}
use easy_failover.Api.Write.{
  FileSystem, Written, wrote, interrupted, failed, write_all, sync_directory, directory_of,
}
use easy_failover.Api.Write.Laws.{IsLawful}

pub Written-cases : (x : Written) → ((n : ℕ) × (x ≡ wrote n)) ⊎ ((x ≡ interrupted) ⊎ (x ≡ failed))
Written-cases (wrote n) = inl (n, refl)
Written-cases interrupted = inr (inl refl)
Written-cases failed = inr (inr refl)

take-drop : (n : ℕ) (t : Text) → take n t ++ drop n t ≡ t
take-drop zero t = refl
take-drop (suc n) [] = refl
take-drop (suc n) (c ∷ cs) = ap (λ x. c ∷ x) (take-drop n cs)

module _ {W : Type 0} {fs : FileSystem W} {files : W → Text → Option Text}
    {opened : W → ℕ → Option Text} (lawful : IsLawful fs files opened) where
  -- The loop touches no other file than the temporary one.
  pub write_all_elsewhere :
      (temp path : Text)
      → path ≢ temp
      → (fuel fd : ℕ) (rest : Text) (w : W) (r : Bool) (w' : W) → opened w fd ≡ some temp
      → write_all fs fuel fd rest w ≡ some (r, w')
      → files w' path ≡ files w path
  unfolding write_all
  write_all_elsewhere temp path away zero fd rest w r w' h e = cc
  write_all_elsewhere temp path away (suc fuel) fd [] w r w' h e = cc
  write_all_elsewhere temp path away (suc fuel) fd (c ∷ cs) w r w' h e =
      let w1 = (fs.write fd (c ∷ cs) w).1 in
      let here = lawful.write_elsewhere fd temp (c ∷ cs) path w h away in
      let still = lawful.write_opened fd (c ∷ cs) w ∙ h in
      elim (Written-cases (fs.write fd (c ∷ cs) w).0) [
        | inl (n, k) ↦
            write_all_elsewhere temp path away fuel fd (drop n (c ∷ cs)) w1 r w' still
              (rw (k, write_all) at e)
            ∙ here
        | inr (inl k) ↦
            write_all_elsewhere temp path away fuel fd (c ∷ cs) w1 r w' still
              (rw (k, write_all) at e)
            ∙ here
        | inr (inr k) ↦ cc (k, e, here)
      ]

  -- A loop that succeeds has appended all of the text.
  pub write_all_there :
      (temp : Text) (fuel fd : ℕ) (rest before : Text) (w w' : W)
      → opened w fd ≡ some temp
      → files w temp ≡ some before
      → write_all fs fuel fd rest w ≡ some (true, w')
      → files w' temp ≡ some (before ++ rest)
  unfolding write_all
  write_all_there temp zero fd rest before w w' h b e = cc
  write_all_there temp (suc fuel) fd [] before w w' h b e = cc (e, b, append-nil before)
  write_all_there temp (suc fuel) fd (c ∷ cs) before w w' h b e =
      let w1 = (fs.write fd (c ∷ cs) w).1 in
      let still = lawful.write_opened fd (c ∷ cs) w ∙ h in
      elim (Written-cases (fs.write fd (c ∷ cs) w).0) [
        | inl (n, k) ↦
            write_all_there temp fuel fd (drop n (c ∷ cs)) (before ++ take n (c ∷ cs)) w1 w' still
              (lawful.write_there fd temp (c ∷ cs) before w n h b k) (rw (k, write_all) at e)
            ∙ ap some (
                append_assoc before (take n (c ∷ cs)) (drop n (c ∷ cs))
                ∙ ap (λ x. before ++ x) (take-drop n (c ∷ cs)))
        | inr (inl k) ↦
            write_all_there temp fuel fd (c ∷ cs) before w1 w' still
              (lawful.write_interrupted fd (c ∷ cs) temp w k ∙ b) (rw (k, write_all) at e)
        | inr (inr k) ↦ cc (k, e)
      ]

  pub files-sync_directory :
      (target path : Text) (w : W) → files (sync_directory fs target w) path ≡ files w path
  unfolding sync_directory
  files-sync_directory target path w =
      let (found, w1) = fs.open_directory (directory_of target) w in
      let same = lawful.directory_files (directory_of target) path w in
      elim (Option-cases found) [
        | inl e ↦ rw (e, sync_directory) same
        | inr (fd, e) ↦
            rw (e, sync_directory)
              (lawful.close_files fd (fs.fsync fd w1).1 path
                ∙ (lawful.fsync_files fd w1 path ∙ same))
      ]
