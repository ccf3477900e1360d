-- ===== src/Files/System/Write.antt =====
-- writeAtomic in file_store.go: whatever step fails, nothing but the whole content is ever left behind.
use go_build_cache.Prelude.{
  ◌≡◌, refl, false, Option, none, some, [], arith, if◌then◌else◌, Bool-cases, Option-cases, inl,
  inr,
}
use go_build_cache.Prelude.Exec.{Result, ok, err, Done}
use go_build_cache.Prelude.Maps.{get, put, delete, get-put, get-delete}
use go_build_cache.Errors.{Error}
use go_build_cache.Store.{Bytes}
use go_build_cache.Files.Paths.{FilePath}
use go_build_cache.Files.System.{
  same_path, same_path_iff, path_eq, FileMap, WriteStep, mkdir_all, create_temp, write_data, chmod,
  sync, close, rename, Attempt, temp_path, rename_file, write_temp, write_atomic,
}

-- What a path gives after a write of `bytes` to `path` that came back with a result.
abbrev pub landed : Result Error Done → FilePath → Bytes → FilePath → FileMap → Option Bytes
landed (ok tt) path bytes q files = if same_path path q then some bytes else get q files
landed (err e) path bytes q files = get q files

-- The name of the temporary file is not in use.
abbrev pub Fresh : Attempt → FilePath → FileMap → Type 0
Fresh a path files =
    (get (temp_path a path) files ≡ none) × (same_path (temp_path a path) path ≡ false)

pub get-rename_file :
    (tmp path q : FilePath) (bytes : Bytes) (files : FileMap)
    → same_path tmp q ≡ false
    → get q (rename_file tmp path (put tmp bytes files))
      ≡ (if same_path path q then some bytes else get q files)
unfolding rename_file
get-rename_file tmp path q bytes files n =
    rw
      (
        get-put tmp tmp bytes files,
        (same_path_iff tmp tmp).1 refl,
        get-put path q bytes (delete tmp (put tmp bytes files)),
        get-delete tmp q (put tmp bytes files),
        n,
        get-put tmp q bytes files,
        n,
      )
      refl

pub get-put_other :
    (tmp q : FilePath) (bytes : Bytes) (files : FileMap)
    → same_path tmp q ≡ false
    → get q (put tmp bytes files) ≡ get q files
get-put_other tmp q bytes files n = rw (get-put tmp q bytes files, n) refl

pub write_temp_lem :
    (a : Attempt) (tmp path q : FilePath) (bytes : Bytes) (files : FileMap)
    → same_path tmp q ≡ false
    → get q (write_temp a tmp path bytes files).1
      ≡ landed (write_temp a tmp path bytes files).0 path bytes q files
unfolding write_temp
write_temp_lem a tmp path q bytes files n =
    let same = get-put_other tmp q bytes files n in
    elim (Option-cases (a.failure write_data)) [
      | inr (e, x) ↦ rw x refl
      | inl w ↦ elim (Option-cases (a.failure chmod)) [
        | inr (e, x) ↦ rw (w, x) same
        | inl c ↦ elim (Option-cases (a.failure sync)) [
          | inr (e, x) ↦ rw (w, c, x) same
          | inl s ↦ elim (Option-cases (a.failure close)) [
            | inr (e, x) ↦ rw (w, c, s, x) same
            | inl d ↦ elim (Option-cases (a.failure rename)) [
              | inr (e, x) ↦ rw (w, c, s, d, x) same
              | inl r ↦ rw (w, c, s, d, r) (get-rename_file tmp path q bytes files n)
            ]
          ]
        ]
      ]
    ]

-- After the deferred removal the temporary file is gone, as it was before.
pub write_atomic_outside :
    (a : Attempt) (path : FilePath) (bytes : Bytes) (files : FileMap)
    → Fresh a path files
    → (q : FilePath) → same_path (temp_path a path) q ≡ false
    → get q (write_atomic a path bytes files).1
      ≡ landed (write_atomic a path bytes files).0 path bytes q files
unfolding write_atomic
write_atomic_outside a path bytes files fresh q n =
    let tmp = temp_path a path in
    elim (Option-cases (a.failure mkdir_all)) [
      | inr (e, x) ↦ rw x refl
      | inl m ↦ elim (Option-cases (a.failure create_temp)) [
        | inr (e, x) ↦ rw (m, x) refl
        | inl c ↦
            rw
              (
                m,
                c,
                get-delete tmp q (write_temp a tmp path bytes (put tmp [] files)).1,
                n,
                write_temp_lem a tmp path q bytes (put tmp [] files) n,
              )
              (landed_same (write_temp a tmp path bytes (put tmp [] files)).0 path bytes q
                (put tmp [] files) files (get-put_other tmp q [] files n))
      ]
    ]
  where
    landed_same :
        (r : Result Error Done) (path : FilePath) (bytes : Bytes) (q : FilePath) (f g : FileMap)
        → get q f ≡ get q g
        → landed r path bytes q f ≡ landed r path bytes q g
    landed_same (ok tt) path bytes q f g h = rw h refl
    landed_same (err e) path bytes q f g h = h

pub write_atomic_temp :
    (a : Attempt) (path : FilePath) (bytes : Bytes) (files : FileMap)
    → Fresh a path files
    → get (temp_path a path) (write_atomic a path bytes files).1 ≡ none
unfolding write_atomic
write_atomic_temp a path bytes files fresh =
    let tmp = temp_path a path in
    elim (Option-cases (a.failure mkdir_all)) [
      | inr (e, x) ↦ rw x fresh.0
      | inl m ↦ elim (Option-cases (a.failure create_temp)) [
        | inr (e, x) ↦ rw (m, x) fresh.0
        | inl c ↦
            rw
              (
                m,
                c,
                get-delete tmp tmp (write_temp a tmp path bytes (put tmp [] files)).1,
                (same_path_iff tmp tmp).1 refl,
              )
              refl
      ]
    ]

-- A write that succeeds leaves the whole content at its path; one that fails, at whatever step, leaves
-- there what stood before. Every other path gives what it gave, and the temporary file is gone, if
-- its name was free.
pub write_atomic_lem :
    (a : Attempt) (path : FilePath) (bytes : Bytes) (files : FileMap)
    → Fresh a path files
    → (q : FilePath)
    → get q (write_atomic a path bytes files).1
      ≡ landed (write_atomic a path bytes files).0 path bytes q files
write_atomic_lem a path bytes files fresh q =
    let tmp = temp_path a path in
    elim (Bool-cases (same_path tmp q)) [
      | inr n ↦ write_atomic_outside a path bytes files fresh q n
      | inl y ↦ rw (← (same_path_iff tmp q).0 y) (
          at_temp (write_atomic a path bytes files).0 path bytes tmp files
            (write_atomic_temp a path bytes files fresh) fresh)
    ]
  where
    at_temp :
        {v : Option Bytes} (r : Result Error Done) (path : FilePath) (bytes : Bytes)
        (tmp : FilePath) (files : FileMap)
        → v ≡ none
        → (get tmp files ≡ none) × (same_path tmp path ≡ false)
        → v ≡ landed r path bytes tmp files
    at_temp (err e) path bytes tmp files h fresh = cc
    at_temp (ok tt) path bytes tmp files h fresh =
        ground (arith, h, fresh.0, fresh.1, same_path_iff path tmp, same_path_iff tmp path)

-- A write in which no step fails succeeds.
pub write_atomic_ok :
    (a : Attempt) (path : FilePath) (bytes : Bytes) (files : FileMap)
    → ((s : WriteStep) → a.failure s ≡ none)
    → (write_atomic a path bytes files).0 ≡ ok tt
unfolding write_atomic write_temp
write_atomic_ok a path bytes files h =
    rw (h mkdir_all, h create_temp, h write_data, h chmod, h sync, h close, h rename) refl
