-- ===== src/Files/System.antt =====
-- file_store.go: the file system, as the contents of its files; a directory is there as soon as a file
-- stands in it. writeAtomic, and what the operations of the store share.
pub mod Write
pub mod Blame
use Prim.Native.String.{◌++◌}
use text.Mathlib.TextEquality.{eq_iff}
use go_build_cache.Prelude.{
  String, ◌≡◌, refl, ◌↔◌, Bool, true, false, ◌&&◌, Option, none, some, List, [], ◌∷◌, arith, str_eq,
  if◌then◌else◌, inl, inr,
}
use go_build_cache.Prelude.Exec.{Result, ok, err, Exec, Done, ◌>>◌, modify}
use go_build_cache.Prelude.Maps.{Eq, Map, get, put, delete}
use go_build_cache.Errors.{Error}
use go_build_cache.Store.{Bytes}
use go_build_cache.Files.Paths.{FilePath, parent}

unfoldable pub same_path : FilePath → FilePath → Bool
same_path [] [] = true
same_path [] (y ∷ q) = false
same_path (x ∷ p) [] = false
same_path (x ∷ p) (y ∷ q) = str_eq x y && same_path p q

pub same_path_iff : (p q : FilePath) → (same_path p q ≡ true) ↔ (p ≡ q)
unfolding same_path
same_path_iff [] [] = (λ h. refl, λ h. refl)
same_path_iff [] (y ∷ q) = (λ h. absurd (cc h), λ h. absurd (cc h))
same_path_iff (x ∷ p) [] = (λ h. absurd (cc h), λ h. absurd (cc h))
same_path_iff (x ∷ p) (y ∷ q) = ground (arith, eq_iff x y, same_path_iff p q)

instance abbrev pub path_eq : Eq FilePath
path_eq = record { beq = same_path; beq_iff = same_path_iff }

abbrev pub FileMap : Type 0
FileMap = Map FilePath Bytes

-- The system calls of writeAtomic.
pub data WriteStep : Type 0 where
  mkdir_all create_temp write_data chmod sync close rename : WriteStep

-- What the system answers to one call of writeAtomic: the error of each step, and the name it
-- picks for the temporary file.
pub record Attempt : Type 0 where
  pub failure : WriteStep → Option Error
  pub tmp_name : String

abbrev pub failing : Option Error → (FileMap → FileMap) → Exec Error FileMap Done
failing none f files = (ok tt, f files)
failing (some e) f files = (err e, files)

unfoldable pub temp_path : Attempt → FilePath → FilePath
temp_path a path = (".tmp-" ++ a.tmp_name) ∷ parent path

abbrev pub moved_onto : FilePath → Option Bytes → FileMap → FileMap
moved_onto path none files = files
moved_onto path (some bytes) files = put path bytes files

-- os.Rename
unfoldable pub rename_file : FilePath → FilePath → FileMap → FileMap
rename_file from path files = moved_onto path (get from files) (delete from files)

-- `defer os.Remove(name)`
abbrev pub removing : FilePath → Exec Error FileMap Done → Exec Error FileMap Done
removing name body files = ((body files).0, delete name (body files).1)

-- What stands after the deferred removal in writeAtomic.
unfoldable pub write_temp : Attempt → FilePath → FilePath → Bytes → Exec Error FileMap Done
unfolding rename_file
write_temp a tmp path bytes =
    failing (a.failure write_data) (put tmp bytes)
    >> failing (a.failure chmod) (λ files. files)
    >> failing (a.failure sync) (λ files. files)
    >> failing (a.failure close) (λ files. files)
    >> failing (a.failure rename) (rename_file tmp path)

-- writeAtomic
unfoldable pub write_atomic : Attempt → FilePath → Bytes → Exec Error FileMap Done
unfolding temp_path write_temp
write_atomic a path bytes =
    let tmp = temp_path a path in
    failing (a.failure mkdir_all) (λ files. files)
    >> failing (a.failure create_temp) (put tmp [])
    >> removing tmp (write_temp a tmp path bytes)
