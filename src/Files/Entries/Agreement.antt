-- ===== src/Files/Entries/Agreement.antt =====
-- file_store.go beside memory_store.go: both stores give the same entries, for namespaces that are no
-- special name of a directory and hold no NUL.
use go_build_cache.Prelude.{
  ℕ, String, ◌≡◌, ◌≢◌, refl, ap, ◌∙◌, true, false, Option, some, arith, ◌==◌, str_eq, Bool-cases,
  Option-cases, inl, inr, ◌⊎◌,
}
use go_build_cache.Prelude.Exec.{Result, ok, err, Done}
use go_build_cache.Prelude.Int64.{lt64}
use go_build_cache.Prelude.Maps.{get, get-delete, string_eq}
use go_build_cache.Model.{Entry}
use go_build_cache.Errors.{Error, cas_failed, entry_not_found}
use go_build_cache.Store.{Bytes, MemoryStore, entry_map_key, or_fail}
use go_build_cache.Store.Entries.{put_entry, put_entry_at, get_entry, delete_entry}
use go_build_cache.Store.Entries.Swap.{stored, get_entry-stored, put_entry_outcome}
use go_build_cache.Files.Paths.{FilePath, entry_path}
use go_build_cache.Files.Paths.Plain.{is_plain}
use go_build_cache.Files.System.{Attempt, WriteStep, path_eq}
use go_build_cache.Files.System.Write.{Fresh, landed, write_atomic_lem}
use go_build_cache.Files.System.Blame.{Blamed, write_atomic-Blamed}
use go_build_cache.Files.Metadata.{Codec, FileStore, load, save, decoded, write_file, mapped}
use go_build_cache.Files.Entries.{
  with_default, unconditional, entry_guard, read_entry_file, put_entry_file, delete_entry_file,
  guarded_save,
}
use go_build_cache.Files.Entries.Identity.{Refines, is_separate, same_identity}

abbrev forgotten : Result Error MemoryStore → Result Error Done
forgotten (ok m) = ok tt
forgotten (err e) = err e

-- The version condition is decided alike.
entry_guard_lem :
    (e : Entry) (want : ℕ) (m : MemoryStore)
    → want ≢ unconditional
    → entry_guard want (get_entry e.namespace e.key m) ≡ forgotten (put_entry e want m)
unfolding entry_guard put_entry put_entry_at get_entry
entry_guard_lem e want m ne =
    elim (Option-cases (get (entry_map_key e.namespace e.key) m.entries)) [
      | inl g ↦ rw g (elim (Bool-cases (lt64 want 0)) [ inl y ↦ rw y refl | inr n ↦ rw n refl ])
      | inr (x, g) ↦
          rw (g, not_unconditional)
            (elim (Bool-cases (lt64 want 0)) [
              | inl y ↦ rw y refl
              | inr n ↦ elim (Bool-cases (x.version == want)) [
                | inl y ↦ rw (n, y) refl
                | inr q ↦ rw (n, q) refl
              ]
            ])
    ]
  where
    not_unconditional : (want == unconditional) ≡ false
    not_unconditional = ground (arith, ne)

with_default_separate : (e : Entry) → is_separate e.namespace ≡ true → with_default e ≡ e
unfolding is_separate is_plain
with_default_separate e h = ground (arith, h)

-- The result and the store that PutEntry of the file store leaves, beside those of the memory store:
-- they agree, or a step of the write failed and both entries are as before.
abbrev pub Answers :
    Codec Entry
    → Attempt
    → Result Error Done
    → FileStore
    → Result Error MemoryStore
    → MemoryStore
    → Type 0
Answers c a r s (err x) m = (r ≡ err x) × Refines c s m
Answers c a r s (ok m1) m =
    ((r ≡ ok tt) × Refines c s m1)
    ⊎ ((step : WriteStep) × (x : Error) × (a.failure step ≡ some x) × (r ≡ err x) × Refines c s m)

-- What readEntry makes of what stands at the entry's path.
abbrev entry_of_file : Codec Entry → Option Bytes → Result Error Entry
entry_of_file c found = mapped with_default (decoded c (or_fail found entry_not_found))

read_landed :
    (c : Codec Entry) (s : FileStore) (a : Attempt) (path : FilePath) (bytes : Bytes)
    (ns key : String)
    → Fresh a path s.files
    → read_entry_file c ns key (write_file a path bytes s).1
      ≡ entry_of_file c
          (landed (write_file a path bytes s).0 path bytes (entry_path s.root ns key) s.files)
unfolding read_entry_file load write_file
read_landed c s a path bytes ns key fresh =
    ap (entry_of_file c) (write_atomic_lem a path bytes s.files fresh (entry_path s.root ns key))

-- After a write that succeeded each identity reads as in the memory store.
read_written :
    (c : Codec Entry) (s : FileStore) (e : Entry) (m : MemoryStore) (bytes : Bytes)
    (ns key : String)
    → c.decode bytes ≡ ok e
    → is_separate e.namespace ≡ true
    → is_separate ns ≡ true
    → Refines c s m
    → entry_of_file c (
        landed
          (ok tt)
          (entry_path s.root e.namespace e.key)
          bytes
          (entry_path s.root ns key)
          s.files)
      ≡ get_entry ns key (stored e m)
unfolding read_entry_file load
read_written c s e m bytes ns key lossless he hns refines =
    rw (get_entry-stored e ns key m, same_identity s.root e.namespace e.key ns key he hns)
      (elim (Bool-cases (str_eq (entry_map_key e.namespace e.key) (entry_map_key ns key))) [
        | inl y ↦ rw (y, lossless, with_default_separate e he) refl
        | inr n ↦ rw n (refines ns key hns)
      ])

write_file-Answers :
    (c : Codec Entry) (s : FileStore) (a : Attempt) (e : Entry) (m : MemoryStore) (bytes : Bytes)
    → Fresh a (entry_path s.root e.namespace e.key) s.files
    → c.decode bytes ≡ ok e
    → is_separate e.namespace ≡ true
    → Refines c s m
    → let written = write_file a (entry_path s.root e.namespace e.key) bytes s in
      Answers c a written.0 written.1 (ok (stored e m)) m
write_file-Answers c s a e m bytes fresh lossless he refines =
    let path = entry_path s.root e.namespace e.key in
    elim (blamed path) [
      | inl k ↦ inl (
        k,
        λ ns key hns.
            read_landed c s a path bytes ns key fresh
            ∙ rw k (read_written c s e m bytes ns key lossless he hns refines),
      )
      | inr (step, x, why, k) ↦ inr (
        step,
        x,
        why,
        k,
        λ ns key hns. read_landed c s a path bytes ns key fresh ∙ rw k (untouched ns key hns),
      )
    ]
  where
    blamed : (path : FilePath) → Blamed a (write_file a path bytes s).0
    blamed path = unfold write_file in write_atomic-Blamed a path bytes s.files

    untouched :
        (ns key : String)
        → is_separate ns ≡ true
        → entry_of_file c (get (entry_path s.root ns key) s.files) ≡ get_entry ns key m
    untouched ns key hns = unfold read_entry_file in (unfold load in refines ns key hns)

put_entry_file-save :
    (c : Codec Entry) (a : Attempt) (e : Entry) (want : ℕ) (s : FileStore) (r : Result Error Done)
    → entry_guard want (read_entry_file c e.namespace e.key s) ≡ r
    → put_entry_file c a e want s ≡ guarded_save c r a e s
unfolding put_entry_file
put_entry_file-save c a e want s r h = rw h refl

-- PutEntry of the file store answers as PutEntry of the memory store does, and afterwards each
-- identity reads alike in both; or a step of the write failed, PutEntry fails with its error, and each
-- identity reads as before. This is for entries and identities whose namespace is separate, an
-- encoding that gives the entry back, a free temporary name and a condition other than -2.
pub put_entry_file-Answers :
    (c : Codec Entry) (a : Attempt) (e : Entry) (want : ℕ) (s : FileStore) (m : MemoryStore)
    (bytes : Bytes)
    → c.encode e ≡ ok bytes
    → c.decode bytes ≡ ok e
    → is_separate e.namespace ≡ true
    → want ≢ unconditional
    → Fresh a (entry_path s.root e.namespace e.key) s.files
    → Refines c s m
    → Answers c a
        (put_entry_file c a e want s).0
        (put_entry_file c a e want s).1
        (put_entry e want m)
        m
put_entry_file-Answers c a e want s m bytes encodes lossless he ne fresh refines =
    elim (put_entry_outcome e want m) [
      | inl written ↦
          rw (written, put_entry_file-save c a e want s (ok tt) (guard ∙ rw written refl))
            (unfold save in
              rw encodes (write_file-Answers c s a e m bytes fresh lossless he refines))
      | inr refused ↦
          rw (refused, put_entry_file-save c a e want s (err cas_failed) (guard ∙ rw refused refl))
            (refl, refines)
    ]
  where
    guard :
        entry_guard want (read_entry_file c e.namespace e.key s) ≡ forgotten (put_entry e want m)
    guard = rw (refines e.namespace e.key he) (entry_guard_lem e want m ne)

-- DeleteEntry of the file store keeps the agreement with the memory store, for a separate namespace.
pub delete_entry_file-Refines :
    (c : Codec Entry) (ns key : String) (s : FileStore) (m : MemoryStore)
    → is_separate ns ≡ true
    → Refines c s m
    → Refines c (delete_entry_file ns key s) (delete_entry ns key m)
unfolding delete_entry_file delete_entry read_entry_file load get_entry
delete_entry_file-Refines c ns key s m h refines a k ha =
    rw
      (
        get-delete (entry_path s.root ns key) (entry_path s.root a k) s.files,
        get-delete (entry_map_key ns key) (entry_map_key a k) m.entries,
        same_identity s.root ns key a k h ha,
      )
      (elim (Bool-cases (str_eq (entry_map_key ns key) (entry_map_key a k))) [
        | inl y ↦ rw y refl
        | inr n ↦ rw n (refines a k ha)
      ])
