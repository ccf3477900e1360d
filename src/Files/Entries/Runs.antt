-- ===== src/Files/Entries/Runs.antt =====
-- file_store.go beside memory_store.go: runs of writes and deletions, from two empty stores.
use go_build_cache.Prelude.{ℕ, String, ◌≡◌, ◌≢◌, refl, true, [], inl, inr}
use go_build_cache.Prelude.Exec.{Result, ok, err, Done}
use go_build_cache.Prelude.Maps.{get, string_eq}
use go_build_cache.Model.{Entry}
use go_build_cache.Errors.{Error}
use go_build_cache.Store.{Bytes, MemoryStore, new_memory_store}
use go_build_cache.Store.Entries.{put_entry, get_entry, delete_entry}
use go_build_cache.Files.Paths.{FilePath, entry_path}
use go_build_cache.Files.System.{Attempt, path_eq}
use go_build_cache.Files.System.Write.{Fresh}
use go_build_cache.Files.Metadata.{Codec, FileStore, load}
use go_build_cache.Files.Entries.{unconditional, read_entry_file, put_entry_file, delete_entry_file}
use go_build_cache.Files.Entries.Identity.{is_separate, Refines}
use go_build_cache.Files.Entries.Agreement.{
  Answers, put_entry_file-Answers, delete_entry_file-Refines,
}

abbrev pub new_files : FilePath → FileStore
new_files root = record { root = root; files = [] }

-- The memory store takes part in the writes that succeed in the file store.
abbrev pub settled : Result Error Done → Result Error MemoryStore → MemoryStore → MemoryStore
settled (ok tt) (ok m1) m = m1
settled (ok tt) (err x) m = m
settled (err x) r m = m

-- The same calls on both stores.
pub data Run (c : Codec Entry) : FileStore → MemoryStore → Type 0 where
  opened : (root : FilePath) → Run c (new_files root) new_memory_store
  put :
      (a : Attempt) (e : Entry) (want : ℕ) (s : FileStore) (m : MemoryStore) (bytes : Bytes)
      → Run c s m
      → c.encode e ≡ ok bytes
      → c.decode bytes ≡ ok e
      → is_separate e.namespace ≡ true
      → want ≢ unconditional
      → Fresh a (entry_path s.root e.namespace e.key) s.files
      → Run c
          (put_entry_file c a e want s).1
          (settled (put_entry_file c a e want s).0 (put_entry e want m) m)
  remove :
      (ns key : String) (s : FileStore) (m : MemoryStore)
      → Run c s m
      → is_separate ns ≡ true
      → Run c (delete_entry_file ns key s) (delete_entry ns key m)

new_files-Refines :
    (c : Codec Entry) (root : FilePath) → Refines c (new_files root) new_memory_store
unfolding read_entry_file load get_entry get
new_files-Refines c root ns key h = refl

settled-Refines :
    (c : Codec Entry) (a : Attempt) (r : Result Error Done) (s : FileStore)
    (written : Result Error MemoryStore) (m : MemoryStore)
    → Answers c a r s written m
    → Refines c s (settled r written m)
settled-Refines c a r s (ok m1) m (inl (k, refines)) = rw k refines
settled-Refines c a r s (ok m1) m (inr (step, x, why, k, refines)) = rw k refines
settled-Refines c a r s (err x) m (k, refines) = rw k refines

-- After any run of writes and deletions of entries from two empty stores, GetEntry of the file store
-- answers for each identity as GetEntry of the memory store does. Writes may fail at any step. The
-- namespaces are separate, what is encoded is read back, temporary names are free, and no condition
-- is -2.
pub run-Refines :
    (c : Codec Entry) (s : FileStore) (m : MemoryStore)
    → Run c s m
    → (ns key : String) → is_separate ns ≡ true
    → read_entry_file c ns key s ≡ get_entry ns key m
run-Refines c _ _ (opened root) = new_files-Refines c root
run-Refines c _ _ (put a e want s m bytes run encodes lossless separate ne fresh) =
    settled-Refines c a (put_entry_file c a e want s).0 (put_entry_file c a e want s).1
      (put_entry e want m) m
      (put_entry_file-Answers c a e want s m bytes encodes lossless separate ne fresh
        (run-Refines c s m run))
run-Refines c _ _ (remove ns key s m run separate) =
    delete_entry_file-Refines c ns key s m separate (run-Refines c s m run)
