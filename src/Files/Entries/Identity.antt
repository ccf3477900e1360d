-- ===== src/Files/Entries/Identity.antt =====
-- file_store.go beside memory_store.go: both stores tell the same identities apart, for namespaces
-- that are no special name of a directory and hold no NUL.
use text.Mathlib.TextEquality.{eq_iff}
use go_build_cache.Prelude.{String, ◌≡◌, Bool, true, ◌&&◌, arith, str_eq}
use go_build_cache.Prelude.Maps.{string_eq}
use go_build_cache.Model.{Entry}
use go_build_cache.Store.{MemoryStore, entry_map_key}
use go_build_cache.Store.Entries.{get_entry}
use go_build_cache.Store.Entries.Swap.{no_nul, entry_map_key-injective}
use go_build_cache.Files.Paths.{FilePath, entry_path}
use go_build_cache.Files.Paths.Plain.{is_plain, entry_path-injective}
use go_build_cache.Files.System.{same_path, same_path_iff, path_eq}
use go_build_cache.Files.Metadata.{Codec, FileStore}
use go_build_cache.Files.Entries.{read_entry_file}

-- A namespace whose entries the two stores keep apart from those of every other namespace.
unfoldable pub is_separate : String → Bool
is_separate ns = is_plain ns && no_nul ns

-- The abstract view: what GetEntry gives for each identity.
abbrev pub Refines : Codec Entry → FileStore → MemoryStore → Type 0
Refines c s m =
    (ns key : String) → is_separate ns ≡ true → read_entry_file c ns key s ≡ get_entry ns key m

both : {A : Type 0} {a k b j : String} (f : String → String → A) → (a ≡ b) × (k ≡ j) → f a k ≡ f b j
both f h = λ i. f (h.0 i) (h.1 i)

is_separate-parts :
    (ns : String) → is_separate ns ≡ true → (is_plain ns ≡ true) × (no_nul ns ≡ true)
unfolding is_separate
is_separate-parts ns h = ground (arith, h)

same_path-same_key :
    (root : FilePath) (a k b j : String)
    → is_separate a ≡ true
    → is_separate b ≡ true
    → entry_path root a k ≡ entry_path root b j
    → entry_map_key a k ≡ entry_map_key b j
same_path-same_key root a k b j ha hb h =
    both entry_map_key
      (entry_path-injective root a k b j (is_separate-parts a ha).0 (is_separate-parts b hb).0 h)

same_key-same_path :
    (root : FilePath) (a k b j : String)
    → is_separate a ≡ true
    → is_separate b ≡ true
    → entry_map_key a k ≡ entry_map_key b j
    → entry_path root a k ≡ entry_path root b j
same_key-same_path root a k b j ha hb h =
    both (entry_path root)
      (entry_map_key-injective a k b j (is_separate-parts a ha).1 (is_separate-parts b hb).1 h)

-- The stores tell the same identities apart.
pub same_identity :
    (root : FilePath) (a k b j : String)
    → is_separate a ≡ true
    → is_separate b ≡ true
    → same_path (entry_path root a k) (entry_path root b j)
      ≡ str_eq (entry_map_key a k) (entry_map_key b j)
same_identity root a k b j ha hb = ground (
  arith,
  same_path_iff (entry_path root a k) (entry_path root b j),
  eq_iff (entry_map_key a k) (entry_map_key b j),
  same_path-same_key root a k b j ha hb,
  same_key-same_path root a k b j ha hb,
)
