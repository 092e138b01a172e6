-- ===== src/Api/Write/Disk.antt =====
-- A small disk that meets the laws: files by path, one open file, and a number of interruptions that
-- are still to come.
use easy_failover.Base.{
  ℕ, zero, suc, ◌≤◌, ◌<◌, Text, eqb, eqb_iff, eqb_refl, Bool, true, false, Option, none, some,
  Bool-cases, List, [], ◌∷◌, ◌++◌, length, take, ◌≡◌, ◌≢◌, refl, sym, ap, ◌∙◌, inl, inr, arith,
  if◌then◌else◌,
}
use easy_failover.Api.Write.{FileSystem, Written, wrote, interrupted, failed}
use easy_failover.Api.Write.Laws.{IsLawful}
use easy_failover.Api.Write.Ends.{IsPatient}

pub record Disk : Type 0 where
  pub contents : List (Text × Text)
  pub open_path : Option Text
  pub interruptions : ℕ

abbrev find : List (Text × Text) → Text → Option Text
find [] path = none
find ((p, t) ∷ more) path = if eqb p path then some t else find more path

abbrev pub files : Disk → Text → Option Text
files w path = find w.contents path

abbrev pub opened : Disk → ℕ → Option Text
opened w fd = w.open_path

abbrev pub put : Text → Text → Disk → Disk
put path t w = record w { contents = (path, t) ∷ w.contents }

abbrev is_some : Option Text → Bool
is_some none = false
is_some (some t) = true

abbrev erase : Text → List (Text × Text) → List (Text × Text)
erase at [] = []
erase at ((p, t) ∷ more) = if eqb p at then erase at more else (p, t) ∷ erase at more

-- The contents at a path come to stand at another one.
abbrev copied : Option Text → Text → Disk → Bool × Disk
copied none to w = (false, w)
copied (some t) to w = (true, put to t w)

abbrev or_nothing : Option Text → Text
or_nothing none = []
or_nothing (some t) = t

abbrev appended : Option Text → Text → Disk → Written × Disk
appended none bytes w = (failed, w)
appended (some path) bytes w =
    (wrote (length bytes), put path (or_nothing (files w path) ++ bytes) w)

abbrev written : ℕ → Text → Disk → Written × Disk
written zero bytes w = appended w.open_path bytes w
written (suc n) bytes w = (interrupted, record w { interruptions = n })

abbrev pub disk : FileSystem Disk
disk = record {
  exists = λ path w. is_some (files w path);
  copy_file = λ from to w. copied (files w from) to w;
  random_device = λ w. (7, w);
  getpid = λ w. 42;
  open_temp = λ path w. (some 3, record (put path [] w) { open_path = some path });
  write = λ fd bytes w. written w.interruptions bytes w;
  fsync = λ fd w. (true, w);
  close = λ fd w. w;
  rename = λ from to w. copied (files w from) to w;
  unlink = λ path w. record w { contents = erase path w.contents };
  open_directory = λ path w. (none, w);
}

put_elsewhere : (at t path : Text) (w : Disk) → path ≢ at → files (put at t w) path ≡ files w path
put_elsewhere at t path w away = elim (Bool-cases (eqb at path)) [
  | inl e ↦ absurd (away (sym ((eqb_iff at path).0 e)))
  | inr e ↦ rw e refl
]

put_there : (at t : Text) (w : Disk) → files (put at t w) at ≡ some t
put_there at t w = rw (eqb_refl at) refl

copied_elsewhere :
    (from : Option Text) (to path : Text) (w : Disk)
    → path ≢ to
    → files (copied from to w).1 path ≡ files w path
copied_elsewhere none to path w away = refl
copied_elsewhere (some t) to path w away = put_elsewhere to t path w away

copied_there :
    (from : Option Text) (to : Text) (w : Disk)
    → (copied from to w).0 ≡ true
    → files (copied from to w).1 to ≡ from
copied_there none to w e = cc
copied_there (some t) to w e = put_there to t w

copied_refused :
    (from : Option Text) (to path : Text) (w : Disk)
    → (copied from to w).0 ≡ false
    → files (copied from to w).1 path ≡ files w path
copied_refused none to path w e = refl
copied_refused (some t) to path w e = cc

take_all : (t : Text) → take (length t) t ≡ t
take_all [] = refl
take_all (c ∷ cs) = ap (λ x. c ∷ x) (take_all cs)

find-erase :
    (at path : Text) (list : List (Text × Text))
    → path ≢ at
    → find (erase at list) path ≡ find list path
find-erase at path [] away = refl
find-erase at path ((p, t) ∷ more) away =
    let ih = find-erase at path more away in
    elim (Bool-cases (eqb p at)) [
      | inl e ↦
          let other : eqb p path ≢ true =
            λ y. away (sym ((eqb_iff p path).0 y) ∙ (eqb_iff p at).0 e) in
          ground (arith, ih, e, other)
      | inr e ↦ ground (arith, ih, e)
    ]

written_elsewhere :
    (n : ℕ) (at bytes path : Text) (w : Disk)
    → w.open_path ≡ some at
    → path ≢ at
    → files (written n bytes w).1 path ≡ files w path
written_elsewhere zero at bytes path w o away = rw o (put_elsewhere at _ path w away)
written_elsewhere (suc n) at bytes path w o away = refl

appended_opened :
    (path : Option Text) (bytes : Text) (w : Disk)
    → (appended path bytes w).1.open_path ≡ w.open_path
appended_opened none bytes w = refl
appended_opened (some path) bytes w = refl

written_opened : (n : ℕ) (bytes : Text) (w : Disk) → (written n bytes w).1.open_path ≡ w.open_path
written_opened zero bytes w = appended_opened w.open_path bytes w
written_opened (suc n) bytes w = refl

appended_there :
    (path : Option Text) (at bytes before : Text) (w : Disk) (n : ℕ)
    → path ≡ some at
    → files w at ≡ some before
    → (appended path bytes w).0 ≡ wrote n
    → files (appended path bytes w).1 at ≡ some (before ++ take n bytes)
appended_there none at bytes before w n o b e = cc
appended_there (some path) at bytes before w n o b e =
    let same : path ≡ at = cc o in
    let all : n ≡ length bytes = cc e in rw (same, all, take_all bytes, b, eqb_refl at) refl

written_there :
    (i : ℕ) (at bytes before : Text) (w : Disk) (n : ℕ)
    → w.open_path ≡ some at
    → files w at ≡ some before
    → (written i bytes w).0 ≡ wrote n
    → files (written i bytes w).1 at ≡ some (before ++ take n bytes)
written_there zero at bytes before w n o b e = appended_there w.open_path at bytes before w n o b e
written_there (suc i) at bytes before w n o b e = cc

appended-ne-interrupted :
    (path : Option Text) (bytes : Text) (w : Disk) → (appended path bytes w).0 ≢ interrupted
appended-ne-interrupted none bytes w = cc
appended-ne-interrupted (some path) bytes w = cc

written_interrupted :
    (n : ℕ) (bytes path : Text) (w : Disk)
    → (written n bytes w).0 ≡ interrupted
    → files (written n bytes w).1 path ≡ files w path
written_interrupted zero bytes path w e = absurd (appended-ne-interrupted w.open_path bytes w e)
written_interrupted (suc n) bytes path w e = refl

pub disk-IsLawful : IsLawful disk files opened
disk-IsLawful = record {
  copy_elsewhere = λ from to path w away. copied_elsewhere (files w from) to path w away;
  copy_there = λ from to w e. copied_there (files w from) to w e;
  random_files = λ w path. refl;
  open_elsewhere = λ at path w away. put_elsewhere at [] path w away;
  open_there = λ at w fd e. (put_there at [] w, refl);
  write_elsewhere =
      λ fd at bytes path w o away. written_elsewhere w.interruptions at bytes path w o away;
  write_opened = λ fd bytes w. written_opened w.interruptions bytes w;
  write_there =
      λ fd at bytes before w n o b e. written_there w.interruptions at bytes before w n o b e;
  write_interrupted = λ fd bytes path w e. written_interrupted w.interruptions bytes path w e;
  fsync_files = λ fd w path. refl;
  close_files = λ fd w path. refl;
  rename_there = λ from to w e. copied_there (files w from) to w e;
  rename_elsewhere = λ from to path w _ away. copied_elsewhere (files w from) to path w away;
  rename_refused = λ from to path w e. copied_refused (files w from) to path w e;
  unlink_elsewhere = λ at path w away. find-erase at path w.contents away;
  directory_files = λ at path w. refl;
}

copied_stalls :
    (from : Option Text) (to : Text) (w : Disk)
    → (copied from to w).1.interruptions ≤ w.interruptions
copied_stalls none to w = omega arith
copied_stalls (some t) to w = omega arith

appended_stalls :
    (path : Option Text) (bytes : Text) (w : Disk)
    → (appended path bytes w).1.interruptions ≤ w.interruptions
appended_stalls none bytes w = omega arith
appended_stalls (some path) bytes w = omega arith

written_stalls :
    (n : ℕ) (bytes : Text) (w : Disk)
    → n ≡ w.interruptions
    → (written n bytes w).1.interruptions ≤ w.interruptions
written_stalls zero bytes w e = appended_stalls w.open_path bytes w
written_stalls (suc n) bytes w e = omega (arith, e)

appended-ne-nothing :
    (path : Option Text) (c : ℕ) (cs : Text) (w : Disk) → (appended path (c ∷ cs) w).0 ≢ wrote 0
appended-ne-nothing none c cs w = cc
appended-ne-nothing (some path) c cs w = cc

written-ne-nothing : (n c : ℕ) (cs : Text) (w : Disk) → (written n (c ∷ cs) w).0 ≢ wrote 0
written-ne-nothing zero c cs w = appended-ne-nothing w.open_path c cs w
written-ne-nothing (suc n) c cs w = cc

interrupted_stalls :
    (n : ℕ) (bytes : Text) (w : Disk)
    → n ≡ w.interruptions
    → (written n bytes w).0 ≡ interrupted
    → (written n bytes w).1.interruptions < w.interruptions
interrupted_stalls zero bytes w e h = absurd (appended-ne-interrupted w.open_path bytes w h)
interrupted_stalls (suc n) bytes w e h = omega (arith, e)

pub disk-IsPatient : IsPatient disk (λ w. w.interruptions)
disk-IsPatient = record {
  after_copy = λ from to w. copied_stalls (files w from) to w;
  after_random = λ w. omega arith;
  after_open = λ at w. omega arith;
  after_progress = λ fd bytes w. written_stalls w.interruptions bytes w refl;
  after_nothing = λ fd c cs w e. absurd (written-ne-nothing w.interruptions c cs w e);
  after_interruption = λ fd c cs w e. interrupted_stalls w.interruptions (c ∷ cs) w refl e;
}
