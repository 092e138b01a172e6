-- ===== src/Api/Write/Paths.antt =====
-- The temporary file, the target and the backup are three files.
use easy_failover.Base.{
  ℕ, ◌≤◌, Text, codes, Option, none, some, [], ◌∷◌, ◌++◌, length, length-append, is_empty, All, ◌≡◌,
  ◌≢◌, refl, sym, ap, ◌∙◌, arith, if_cases,
}
use easy_failover.Base.Decimal.{decimal, decimal-digits}
use easy_failover.Base.Search.{cut_last, trim_end, one_of}
use easy_failover.Api.Write.{filename, in_directory, temp_path, directory_of}

-- A text without a separator.
abbrev IsName : Text → Type 0
IsName t = cut_last b'/' t ≡ none

digits-IsName : (t : Text) → All (λ c. b'0' ≤ c) t → IsName t
unfolding cut_last
digits-IsName [] h = refl
digits-IsName (c ∷ cs) h = let ih = digits-IsName cs h.1 in let low = h.0 in rw ih (ground arith)

append-IsName : (s t : Text) → IsName s → IsName t → IsName (s ++ t)
unfolding cut_last
append-IsName [] t hs ht = ht
append-IsName (c ∷ cs) t hs ht = ground (arith, append-IsName cs t)

filename-IsName : (path : Text) → IsName (filename path)
unfolding filename cut_last
filename-IsName [] = refl
filename-IsName (c ∷ cs) = let ih = filename-IsName cs in ground arith

filename-separator : (d g : Text) → IsName g → cut_last b'/' (d ++ b'/' ∷ g) ≡ some (d, g)
unfolding cut_last
filename-separator [] g h = rw h refl
filename-separator (c ∷ cs) g h = rw (filename-separator cs g h) refl

filename-root : (d g : Text) → IsName g → trim_end (codes "/") d ≡ [] → filename (d ++ g) ≡ g
unfolding filename cut_last trim_end one_of codes
filename-root [] g h e = rw h refl
filename-root (c ∷ cs) g h e = let ih = filename-root cs g h in ground arith

filename-in_directory : (d g : Text) → IsName g → filename (in_directory d g) ≡ g
unfolding in_directory filename
filename-in_directory d g h =
    if_cases (λ x. filename x ≡ g) (is_empty (trim_end (codes "/") d)) _ _
      (λ e. filename-root d g h (ground arith)) (λ _. rw (filename-separator d g h) refl)

abbrev with_suffix : Text → Option (Text × Text) → Option (Text × Text)
with_suffix s none = none
with_suffix s (some (head, name)) = some (head, name ++ s)

cut_last-suffix : (t s : Text) → IsName s → cut_last b'/' (t ++ s) ≡ with_suffix s (cut_last b'/' t)
unfolding cut_last
cut_last-suffix [] s h = h
cut_last-suffix (c ∷ cs) s h = let ih = cut_last-suffix cs s h in ground arith

filename-suffix : (t s : Text) → IsName s → filename (t ++ s) ≡ filename t ++ s
unfolding filename
filename-suffix t s h = rw (cut_last-suffix t s h) (ground arith)

filename-temp_path :
    (target : Text) (random pid : ℕ)
    → filename (temp_path target random pid)
      ≡ filename target ++ (codes ".tmp." ++ (decimal random ++ decimal pid))
unfolding temp_path codes cut_last
filename-temp_path target random pid = filename-in_directory (directory_of target) _ (
    append-IsName (filename target) _ (filename-IsName target) (
      append-IsName (codes ".tmp.") (decimal random ++ decimal pid) refl (
        append-IsName (decimal random) (decimal pid) (digits-IsName _ (decimal-digits random))
          (digits-IsName _ (decimal-digits pid)))))

-- The temporary file never is the target.
pub target-ne-temp_path : (target : Text) (random pid : ℕ) → target ≢ temp_path target random pid
unfolding codes
target-ne-temp_path target random pid e =
    let same = ap (λ x. length (filename x)) e ∙ ap length (filename-temp_path target random pid) in
    let longer =
      length-append (filename target) (codes ".tmp." ++ (decimal random ++ decimal pid)) in
    omega (arith, same, longer)

-- The name that the apply endpoint gives the backup.
unfoldable pub backup_of : Text → Text
backup_of path = path ++ codes ".bak"

pub target-ne-backup_of : (target : Text) → target ≢ backup_of target
unfolding backup_of codes
target-ne-backup_of target e = omega (arith, ap length e, length-append target (codes ".bak"))

cancel : (s a b : Text) → s ++ a ≡ s ++ b → a ≡ b
cancel [] a b e = e
cancel (c ∷ cs) a b e = cancel cs a b cc

pub backup_of-ne-temp_path :
    (target : Text) (random pid : ℕ) → backup_of target ≢ temp_path target random pid
unfolding backup_of codes cut_last
backup_of-ne-temp_path target random pid e =
    let same : filename target ++ codes ".bak"
        ≡ filename target ++ (codes ".tmp." ++ (decimal random ++ decimal pid)) =
      sym (filename-suffix target (codes ".bak") refl)
      ∙ (ap filename e ∙ filename-temp_path target random pid) in
    let suffix = cancel (filename target) _ _ same in absurd (cc suffix)
