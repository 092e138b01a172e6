-- ===== src/Api/Write/Laws.antt =====
-- What the write relies on: the documented effect of each call on the files and their contents.
use easy_failover.Base.{ℕ, Text, true, false, Option, some, [], ◌++◌, take, ◌≡◌, ◌≢◌}
use easy_failover.Api.Write.{FileSystem, wrote, interrupted}

-- `files` gives the contents of a path, `opened` the path of a file descriptor.
pub record IsLawful {W : Type 0} (fs : FileSystem W) (files : W → Text → Option Text)
    (opened : W → ℕ → Option Text) : Type 0 where
  pub copy_elsewhere :
      (from to path : Text) (w : W)
      → path ≢ to
      → files (fs.copy_file from to w).1 path ≡ files w path
  pub copy_there :
      (from to : Text) (w : W)
      → (fs.copy_file from to w).0 ≡ true
      → files (fs.copy_file from to w).1 to ≡ files w from
  pub random_files : (w : W) (path : Text) → files (fs.random_device w).1 path ≡ files w path
  pub open_elsewhere :
      (at path : Text) (w : W) → path ≢ at → files (fs.open_temp at w).1 path ≡ files w path
  pub open_there :
      (at : Text) (w : W) (fd : ℕ)
      → (fs.open_temp at w).0 ≡ some fd
      → (files (fs.open_temp at w).1 at ≡ some []) × (opened (fs.open_temp at w).1 fd ≡ some at)
  pub write_elsewhere :
      (fd : ℕ) (at bytes path : Text) (w : W)
      → opened w fd ≡ some at
      → path ≢ at
      → files (fs.write fd bytes w).1 path ≡ files w path
  pub write_opened :
      (fd : ℕ) (bytes : Text) (w : W) → opened (fs.write fd bytes w).1 fd ≡ opened w fd
  pub write_there :
      (fd : ℕ) (at bytes before : Text) (w : W) (n : ℕ)
      → opened w fd ≡ some at
      → files w at ≡ some before
      → (fs.write fd bytes w).0 ≡ wrote n
      → files (fs.write fd bytes w).1 at ≡ some (before ++ take n bytes)
  pub write_interrupted :
      (fd : ℕ) (bytes path : Text) (w : W)
      → (fs.write fd bytes w).0 ≡ interrupted
      → files (fs.write fd bytes w).1 path ≡ files w path
  pub fsync_files : (fd : ℕ) (w : W) (path : Text) → files (fs.fsync fd w).1 path ≡ files w path
  pub close_files : (fd : ℕ) (w : W) (path : Text) → files (fs.close fd w) path ≡ files w path
  pub rename_there :
      (from to : Text) (w : W)
      → (fs.rename from to w).0 ≡ true
      → files (fs.rename from to w).1 to ≡ files w from
  pub rename_elsewhere :
      (from to path : Text) (w : W)
      → path ≢ from
      → path ≢ to
      → files (fs.rename from to w).1 path ≡ files w path
  pub rename_refused :
      (from to path : Text) (w : W)
      → (fs.rename from to w).0 ≡ false
      → files (fs.rename from to w).1 path ≡ files w path
  pub unlink_elsewhere :
      (at path : Text) (w : W) → path ≢ at → files (fs.unlink at w) path ≡ files w path
  pub directory_files :
      (at path : Text) (w : W) → files (fs.open_directory at w).1 path ≡ files w path
