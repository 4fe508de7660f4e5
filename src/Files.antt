-- ===== src/Files.antt =====
-- agent/server/impl/Files.h and Files.cpp. Nothing here changes a file: the functions are given
-- the state of the system, and what they throw is their result.
pub mod Listing
pub mod Age
use oort_agent.Base.{
  ℕ, ◌+◌, Bool, true, false, ◌&&◌, ◌||◌, not, Option, List, [], ◌∷◌, ◌++◌, Bytes, codes, ◌==◌,
  if◌then◌else◌, Result, ok, raise, system_error, runtime_error, null_dereference, then_ok, ℤ, pos,
  ◌-ℤ◌, ltb_ℤ, wrap32,
}
use oort_agent.Posix.{FileSystem, Stat, Sys, done, failed}
use oort_agent.Utils.Paths.{tailname, ends_with}
use oort_agent.Utils.Crc.{get_crc}

-- `s[0] == c`; the character at 0 of the empty string is NUL.
abbrev pub first_is : ℕ → Bytes → Bool
first_is c [] = false
first_is c (x ∷ s) = x == c

abbrev pub is_empty : Bytes → Bool
is_empty [] = true
is_empty (x ∷ s) = false

-- The model FileInfo of the API.
pub record FileInfo : Type 0 where
  pub id : Bytes
  pub path : Bytes
  pub size : ℕ
  pub created : ℕ
  pub modified : ℕ
  pub crc32 : Bytes

unfoldable pub check_path : Bytes → Bool
check_path path = first_is b'/' path

-- `time(NULL)` as an `int`, and the test of oldFiles on the `time_t` of a file.
unfoldable pub is_old : ℕ → ℤ → ℕ → Bool
is_old time age mtime = ltb_ℤ (pos mtime) (wrap32 (wrap32 (pos time) -ℤ age))

module _ (F : FileSystem) where
  unfoldable pub file_stat : Bytes → F.State → Result Stat
  file_stat file s = elim (F.stat file s) [
    | failed n ↦ raise (runtime_error (codes "stat error: " ++ F.strerror n))
    | done buf ↦
        if buf.is_regular
        then ok buf
        else raise
            (runtime_error (codes "stat error: " ++ (file ++ codes " is not a regular file")))
  ]

  -- The body of the loop of list_files.
  abbrev pub is_listed : Bytes → Bytes → Bool
  is_listed ext fname = not (first_is b'.' fname) && (is_empty ext || ends_with fname ext)

  unfoldable pub keep_listed : Bytes → List Bytes → List Bytes
  keep_listed ext [] = []
  keep_listed ext (fname ∷ names) =
      let rest = keep_listed ext names in if is_listed ext fname then fname ∷ rest else rest

  unfoldable pub list_files : Bytes → Bytes → F.State → Result (List Bytes)
  unfolding keep_listed
  list_files dir ext s = elim (F.readdir dir s) [
    | failed n ↦ raise (system_error n (codes "opendir"))
    | done names ↦ ok (keep_listed ext names)
  ]

  -- The loop of file_names: a file whose stat throws is left out.
  unfoldable pub keep_regular : Bytes → List Bytes → F.State → List Bytes
  keep_regular dir [] s = []
  keep_regular dir (f ∷ files) s =
      let rest = keep_regular dir files s in
      elim (file_stat (dir ++ b'/' ∷ f) s) [ ok buf ↦ f ∷ rest | raise e ↦ rest ]

  unfoldable pub file_names : Bytes → F.State → Result (List Bytes)
  unfolding list_files keep_regular
  file_names dir s = then_ok (list_files dir [] s) λ files. ok (keep_regular dir files s)

  -- The loop of oldFiles: dotfiles are skipped, and so is what cannot be statted.
  unfoldable pub keep_old : Bytes → ℤ → List Bytes → F.State → List Bytes
  unfolding is_old
  keep_old dir age [] s = []
  keep_old dir age (name ∷ names) s =
      let rest = keep_old dir age names s in
      let fname = dir ++ b'/' ∷ name in
      if first_is b'.' name then rest else elim (F.stat fname s) [
        | failed n ↦ rest
        | done buf ↦ if is_old (F.time s) age buf.mtime then fname ∷ rest else rest
      ]

  -- What a failed `opendir` returns is not looked at: `readdir_r` is called on a null pointer.
  unfoldable pub old_files : Bytes → ℤ → F.State → Result (List Bytes)
  unfolding keep_old
  old_files dir age s = elim (F.readdir dir s) [
    | failed n ↦ raise null_dereference
    | done names ↦ ok (keep_old dir age names s)
  ]

  module _ (crc32 : ℕ → Bytes → ℕ) where
    unfoldable pub file_info : Bytes → F.State → Result FileInfo
    unfolding file_stat
    file_info file s = then_ok (file_stat file s) λ buf. ok (record {
      id = tailname file;
      path = file;
      size = buf.size;
      created = buf.ctime;
      modified = buf.mtime;
      crc32 = get_crc crc32 (F.contents file s);
    })
