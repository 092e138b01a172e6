-- ===== src/Api/Write.antt =====
-- atomicWriteConfigWithBackup, over the calls of the operating system and std::filesystem::exists and
-- copy_file.
pub mod Laws
pub mod Paths
pub mod Loop
pub mod Atomic
pub mod Ends
pub mod Disk
use easy_failover.Base.{
  ℕ, zero, suc, ◌==◌, Text, codes, Bool, true, false, ◌&&◌, not, Option, none, some, List, [], ◌∷◌,
  ◌++◌, is_empty, drop, if◌then◌else◌,
}
use easy_failover.Base.Decimal.{decimal}
use easy_failover.Base.Search.{cut_last, trim_end}

-- The result of ::write: a count of bytes, an interruption (EINTR), or another error.
pub data Written : Type 0 where
  wrote : ℕ → Written
  interrupted failed : Written

-- `exists` is true where fs::exists is true and reports no error; a Boolean result is success.
-- `open_temp` is ::open to write, create and truncate, `open_directory` is ::open to read.
pub record FileSystem (W : Type 0) : Type 0 where
  pub exists : Text → W → Bool
  pub copy_file : Text → Text → W → Bool × W
  pub random_device : W → ℕ × W
  pub getpid : W → ℕ
  pub open_temp : Text → W → Option ℕ × W
  pub write : ℕ → Text → W → Written × W
  pub fsync : ℕ → W → Bool × W
  pub close : ℕ → W → W
  pub rename : Text → Text → W → Bool × W
  pub unlink : Text → W → W
  pub open_directory : Text → W → Option ℕ × W

abbrev pub file_part : Text → Option (Text × Text) → Text
file_part path none = path
file_part path (some (_, name)) = name

abbrev directory_part : Option (Text × Text) → Text
directory_part none = []
directory_part (some (head, _)) =
    let trimmed = trim_end (codes "/") head in if is_empty trimmed then codes "/" else trimmed

-- fs::path::filename and parent_path of a POSIX path.
unfoldable pub filename : Text → Text
unfolding cut_last
filename path = file_part path (cut_last b'/' path)

unfoldable pub parent_path : Text → Text
unfolding cut_last trim_end
parent_path path = directory_part (cut_last b'/' path)

unfoldable pub directory_of : Text → Text
unfolding parent_path
directory_of path = if is_empty (parent_path path) then codes "." else parent_path path

-- operator/ of fs::path with a file name: no second separator behind the root.
unfoldable pub in_directory : Text → Text → Text
in_directory directory name =
    if is_empty (trim_end (codes "/") directory)
    then directory ++ name
    else directory ++ b'/' ∷ name

unfoldable pub temp_path : Text → ℕ → ℕ → Text
unfolding directory_of filename in_directory
temp_path target random pid =
    in_directory (directory_of target)
      (filename target ++ (codes ".tmp." ++ (decimal random ++ decimal pid)))

module _ {W : Type 0} (fs : FileSystem W) where
  -- The loop over ::write, on fuel: `none` if the fuel does not reach.
  unfoldable pub write_all : ℕ → ℕ → Text → W → Option (Bool × W)
  write_all zero fd rest w = none
  write_all (suc fuel) fd [] w = some (true, w)
  write_all (suc fuel) fd (c ∷ cs) w =
      let (result, w') = fs.write fd (c ∷ cs) w in
      elim result [
        | wrote n ↦ write_all fuel fd (drop n (c ∷ cs)) w'
        | interrupted ↦ write_all fuel fd (c ∷ cs) w'
        | failed ↦ some (false, w')
      ]

  -- Closing and removing the temporary file after a failure.
  give_up : ℕ → Text → W → Bool × W
  give_up fd temp w = (false, fs.unlink temp (fs.close fd w))

  pub sync_directory : Text → W → W
  sync_directory target w =
      let (opened, w1) = fs.open_directory (directory_of target) w in
      elim opened [ none ↦ w1 | some fd ↦ fs.close fd (fs.fsync fd w1).1 ]

  replace_target : Text → Text → W → Bool × W
  unfolding sync_directory
  replace_target target temp w =
      let (renamed, w1) = fs.rename temp target w in
      if renamed then (true, sync_directory target w1) else (false, fs.unlink temp w1)

  finish_temp : Text → Text → ℕ → W → Bool × W
  unfolding give_up replace_target
  finish_temp target temp fd w =
      let (synced, w1) = fs.fsync fd w in
      if synced then replace_target target temp (fs.close fd w1) else give_up fd temp w1

  written_temp : Text → Text → ℕ → Option (Bool × W) → Option (Bool × W)
  unfolding give_up finish_temp
  written_temp target temp fd none = none
  written_temp target temp fd (some (false, w)) = some (give_up fd temp w)
  written_temp target temp fd (some (true, w)) = some (finish_temp target temp fd w)

  write_temp : ℕ → Text → Text → Text → W → Option (Bool × W)
  unfolding write_all written_temp
  write_temp fuel target temp contents w =
      let (opened, w1) = fs.open_temp temp w in
      elim opened [
        | none ↦ some (false, w1)
        | some fd ↦ written_temp target temp fd (write_all fuel fd contents w1)
      ]

  -- The copy of the previous config; false ends the call.
  pub back_up : Text → Text → W → Bool × W
  back_up target backup w = if fs.exists target w then fs.copy_file target backup w else (true, w)

  pub replace_file : ℕ → Text → Text → W → Option (Bool × W)
  unfolding write_temp temp_path
  replace_file fuel target contents w =
      let (random, w1) = fs.random_device w in
      write_temp fuel target (temp_path target random (fs.getpid w1)) contents w1

  unfoldable pub atomic_write_config_with_backup : ℕ → Text → Text → Text → W → Option (Bool × W)
  unfolding back_up replace_file
  atomic_write_config_with_backup fuel target contents backup w =
      let (backed_up, w1) = back_up target backup w in
      if backed_up then replace_file fuel target contents w1 else some (false, w1)
