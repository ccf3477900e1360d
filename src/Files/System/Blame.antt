-- ===== src/Files/System/Blame.antt =====
-- writeAtomic in file_store.go fails only with the error of one of its steps.
use go_build_cache.Prelude.{◌≡◌, refl, some, [], Option-cases, inl, inr, ◌⊎◌}
use go_build_cache.Prelude.Exec.{Result, ok, err, Exec, Done, ◌>>◌}
use go_build_cache.Prelude.Maps.{put}
use go_build_cache.Errors.{Error}
use go_build_cache.Store.{Bytes}
use go_build_cache.Files.Paths.{FilePath}
use go_build_cache.Files.System.{
  path_eq, FileMap, WriteStep, mkdir_all, create_temp, write_data, chmod, sync, close, rename,
  Attempt, failing, temp_path, rename_file, removing, write_temp, write_atomic,
}

-- `m` succeeds or fails with the error of one of the steps.
abbrev pub Blamed : Attempt → Result Error Done → Type 0
Blamed a r = (r ≡ ok tt) ⊎ ((s : WriteStep) × (e : Error) × (a.failure s ≡ some e) × (r ≡ err e))

abbrev AlwaysBlamed : Attempt → Exec Error FileMap Done → Type 0
AlwaysBlamed a m = (files : FileMap) → Blamed a (m files).0

failing-Blamed :
    (a : Attempt) (s : WriteStep) (f : FileMap → FileMap) → AlwaysBlamed a (failing (a.failure s) f)
failing-Blamed a s f files = elim (Option-cases (a.failure s)) [
  | inl n ↦ inl (rw n refl)
  | inr (e, x) ↦ inr (s, e, x, rw x refl)
]

then-Blamed :
    (a : Attempt) (m n : Exec Error FileMap Done)
    → AlwaysBlamed a m
    → AlwaysBlamed a n
    → AlwaysBlamed a (m >> n)
then-Blamed a m n hm hn files = elim (hm files) [
  | inl k ↦ rw k (hn (m files).1)
  | inr (s, e, x, k) ↦ inr (s, e, x, rw k refl)
]

write_temp-Blamed :
    (a : Attempt) (tmp path : FilePath) (bytes : Bytes)
    → AlwaysBlamed a (write_temp a tmp path bytes)
unfolding write_temp
write_temp-Blamed a tmp path bytes =
    then-Blamed a _ _
      (then-Blamed a _ _
        (then-Blamed a _ _
          (then-Blamed a _ _ (failing-Blamed a write_data (put tmp bytes))
            (failing-Blamed a chmod (λ files. files)))
          (failing-Blamed a sync (λ files. files)))
        (failing-Blamed a close (λ files. files)))
      (failing-Blamed a rename (rename_file tmp path))

-- A write fails with the error of one of its steps, or succeeds.
pub write_atomic-Blamed :
    (a : Attempt) (path : FilePath) (bytes : Bytes) (files : FileMap)
    → Blamed a (write_atomic a path bytes files).0
unfolding write_atomic
write_atomic-Blamed a path bytes =
    let tmp = temp_path a path in
    then-Blamed a
      (failing (a.failure mkdir_all) (λ files. files)
        >> failing (a.failure create_temp) (put tmp []))
      (removing tmp (write_temp a tmp path bytes))
      (then-Blamed a (failing (a.failure mkdir_all) (λ files. files))
        (failing (a.failure create_temp) (put tmp [])) (failing-Blamed a mkdir_all (λ files. files))
        (failing-Blamed a create_temp (put tmp [])))
      (write_temp-Blamed a tmp path bytes)
