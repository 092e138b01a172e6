-- ===== src/Api/Write/Atomic.antt =====
-- The target holds its old contents or exactly the new ones.
use easy_failover.Base.{
  ℕ, Text, Bool, true, false, Bool-cases, Option, none, some, Option-cases, [], ◌≡◌, ◌≢◌, refl, sym,
  ◌∙◌, subst, inl, inr, if_cases,
}
use easy_failover.Api.Write.{
  FileSystem, write_all, give_up, replace_target, finish_temp, written_temp, write_temp, back_up,
  replace_file, atomic_write_config_with_backup, temp_path,
}
use easy_failover.Api.Write.Laws.{IsLawful}
use easy_failover.Api.Write.Loop.{write_all_elsewhere, write_all_there, files-sync_directory}
use easy_failover.Api.Write.Paths.{target-ne-temp_path}

module _ {W : Type 0} {fs : FileSystem W} {files : W → Text → Option Text}
    {opened : W → ℕ → Option Text} (lawful : IsLawful fs files opened) where
  module _ (target temp : Text) (distinct : target ≢ temp) where
    -- The target has the new contents after a success and the old ones after a failure, and no other
    -- file but the temporary one changes.
    abbrev Outcome : Option Text → W → Bool × W → Type 0
    Outcome new w (r, w') =
        (r ≡ true → files w' target ≡ new)
        × (r ≡ false → files w' target ≡ files w target)
        × ((path : Text) → path ≢ target → path ≢ temp → files w' path ≡ files w path)

    failure-Outcome :
        (new : Option Text) (w w' : W)
        → ((path : Text) → path ≢ temp → files w' path ≡ files w path)
        → Outcome new w (false, w')
    failure-Outcome new w w' kept =
        (λ e. cc, λ _. kept target distinct, λ path _ away. kept path away)

    give_up-Outcome : (new : Option Text) (fd : ℕ) (w : W) → Outcome new w (give_up fs fd temp w)
    unfolding give_up
    give_up-Outcome new fd w = failure-Outcome new w _ λ path away.
        lawful.unlink_elsewhere temp path (fs.close fd w) away ∙ lawful.close_files fd w path

    replace_target-Outcome : (w : W) → Outcome (files w temp) w (replace_target fs target temp w)
    unfolding replace_target
    replace_target-Outcome w =
        let w1 = (fs.rename temp target w).1 in
        if_cases (Outcome (files w temp) w) (fs.rename temp target w).0 _ _
          (λ done. (
            λ _.
                files-sync_directory lawful target target w1
                ∙ lawful.rename_there temp target w done,
            λ e. cc,
            λ path other away.
                files-sync_directory lawful target path w1
                ∙ lawful.rename_elsewhere temp target path w away other,
          ))
          (λ refused. failure-Outcome (files w temp) w _ (λ path away.
            lawful.unlink_elsewhere temp path w1 away
            ∙ lawful.rename_refused temp target path w refused))

    -- Steps that keep every file but the temporary one may stand in front.
    after-Outcome :
        (new : Option Text) (w w1 : W) (r : Bool × W)
        → ((path : Text) → path ≢ temp → files w1 path ≡ files w path)
        → Outcome new w1 r
        → Outcome new w r
    after-Outcome new w w1 r kept (done, undone, others) = (
      done,
      λ e. undone e ∙ kept target distinct,
      λ path other away. others path other away ∙ kept path away,
    )

    finish_temp-Outcome :
        (new : Option Text) (fd : ℕ) (w : W)
        → files w temp ≡ new
        → Outcome new w (finish_temp fs target temp fd w)
    unfolding finish_temp
    finish_temp-Outcome new fd w e =
        let w1 = (fs.fsync fd w).1 in
        let synced : (path : Text) → files w1 path ≡ files w path = lawful.fsync_files fd w in
        let closed : (path : Text) → files (fs.close fd w1) path ≡ files w path =
          λ path. lawful.close_files fd w1 path ∙ synced path in
        if_cases (Outcome new w) (fs.fsync fd w).0 _ _
          (λ _.
            after-Outcome new w (fs.close fd w1) _ (λ path _. closed path)
              (subst
                (λ x. Outcome x (fs.close fd w1) (replace_target fs target temp (fs.close fd w1)))
                (closed temp ∙ e) (replace_target-Outcome (fs.close fd w1))))
          (λ _. after-Outcome new w w1 _ (λ path _. synced path) (give_up-Outcome new fd w1))

    written_temp-Outcome :
        (fuel fd : ℕ) (contents : Text) (w : W) (written : Option (Bool × W)) (r : Bool × W)
        → files w temp ≡ some []
        → opened w fd ≡ some temp
        → write_all fs fuel fd contents w ≡ written
        → written_temp fs target temp fd written ≡ some r
        → Outcome (some contents) w r
    unfolding written_temp
    written_temp-Outcome fuel fd contents w none r b h k e = cc
    written_temp-Outcome fuel fd contents w (some (ok, w1)) r b h k e =
        let kept : (path : Text) → path ≢ temp → files w1 path ≡ files w path =
          λ path away. write_all_elsewhere lawful temp path away fuel fd contents w ok w1 h k in
        after-Outcome (some contents) w w1 r kept (elim (Bool-cases ok) [
          | inl y ↦
              let q : finish_temp fs target temp fd w1 ≡ r = cc (rw (y, written_temp) at e) in
              let there = write_all_there lawful temp fuel fd contents [] w w1 h b (cc (k, y)) in
              subst (Outcome (some contents) w1) q (finish_temp-Outcome (some contents) fd w1 there)
          | inr n ↦
              let q : give_up fs fd temp w1 ≡ r = cc (rw (n, written_temp) at e) in
              subst (Outcome (some contents) w1) q (give_up-Outcome (some contents) fd w1)
        ])

    write_temp-Outcome :
        (fuel : ℕ) (contents : Text) (w : W) (r : Bool × W)
        → write_temp fs fuel target temp contents w ≡ some r
        → Outcome (some contents) w r
    unfolding write_temp
    write_temp-Outcome fuel contents w r e =
        let w1 = (fs.open_temp temp w).1 in
        let kept : (path : Text) → path ≢ temp → files w1 path ≡ files w path =
          λ path away. lawful.open_elsewhere temp path w away in
        elim (Option-cases (fs.open_temp temp w).0) [
          | inl k ↦
              let q : (false, w1) ≡ r = cc (rw (k, write_temp) at e) in
              subst (Outcome (some contents) w) q (failure-Outcome (some contents) w w1 kept)
          | inr (fd, k) ↦
              let (empty, names) = lawful.open_there temp w fd k in
              after-Outcome (some contents) w w1 r kept (
                written_temp-Outcome fuel fd contents w1 _ r empty names refl
                  (rw (k, write_temp) at e))
        ]

  -- The copy to the backup changes nothing else, and a success leaves the target's contents there.
  files-back_up :
      (target backup : Text) (w : W)
      → target ≢ backup
      → (files (back_up fs target backup w).1 target ≡ files w target)
        × (fs.exists target w ≡ true
            → (back_up fs target backup w).0 ≡ true
            → files (back_up fs target backup w).1 backup ≡ files w target)
  unfolding back_up
  files-back_up target backup w distinct = elim (Bool-cases (fs.exists target w)) [
    | inl e ↦
        rw (e, back_up)
          (
            lawful.copy_elsewhere target backup target w distinct,
            λ _ done. lawful.copy_there target backup w done,
          )
    | inr e ↦ rw (e, back_up) (refl, λ t. cc)
  ]

  files-replace_file :
      (fuel : ℕ) (target contents : Text) (w : W) (r : Bool) (w' : W)
      → replace_file fs fuel target contents w ≡ some (r, w')
      → (r ≡ true → files w' target ≡ some contents)
        × (r ≡ false → files w' target ≡ files w target)
        × ((path : Text)
            → path ≢ target
            → ((random pid : ℕ) → path ≢ temp_path target random pid)
            → files w' path ≡ files w path)
  unfolding replace_file
  files-replace_file fuel target contents w r w' e =
      let (random, w1) = fs.random_device w in
      let temp = temp_path target random (fs.getpid w1) in
      let (done, undone, others) =
        write_temp-Outcome target temp (target-ne-temp_path target random (fs.getpid w1)) fuel
          contents w1 (r, w') e in
      (
        done,
        λ n. undone n ∙ lawful.random_files w target,
        λ path other away.
            others path other (away random (fs.getpid w1)) ∙ lawful.random_files w path,
      )

-- Over a file system whose calls have their documented effects, and for a backup path that is neither
-- the target nor a temporary file of it, a write that returns true has put exactly the new contents
-- into the target and, if there was a target, its old contents into the backup, and a write that
-- returns false has left the target as it was.
pub atomic_write_refines :
    {W : Type 0} {fs : FileSystem W} {files : W → Text → Option Text} {opened : W → ℕ → Option Text}
    (lawful : IsLawful fs files opened) (fuel : ℕ) (target contents backup : Text) (w : W)
    (r : Bool) (w' : W)
    → target ≢ backup
    → ((random pid : ℕ) → backup ≢ temp_path target random pid)
    → atomic_write_config_with_backup fs fuel target contents backup w ≡ some (r, w')
    → (r ≡ true
        → (files w' target ≡ some contents)
          × (fs.exists target w ≡ true → files w' backup ≡ files w target))
      × (r ≡ false → files w' target ≡ files w target)
unfolding atomic_write_config_with_backup
atomic_write_refines {fs = fs} {files} lawful fuel target contents backup w r w' apart away e =
    let w1 = (back_up fs target backup w).1 in
    let (same, copied) = files-back_up lawful target backup w apart in
    elim (Bool-cases (back_up fs target backup w).0) [
      | inl k ↦
          let (done, undone, others) =
            files-replace_file lawful fuel target contents w1 r w'
              (rw (k, atomic_write_config_with_backup) at e) in
          let other : backup ≢ target = λ q. apart (sym q) in
          (λ y. (done y, λ there. others backup other away ∙ copied there k), λ n. undone n ∙ same)
      | inr k ↦
          let h = rw (k, atomic_write_config_with_backup) at e in
          (λ y. absurd (cc (h, y)), λ _. cc (h, same))
    ]
