-- ===== src/Tests/Reading.antt =====
-- Readers and the fake clock at concrete values.
use go_build_cache.Prelude.{◌≡◌, refl, some, [], ◌∷◌, arith, sort_by, insert_by}
use go_build_cache.Prelude.Exec.{ok}
use go_build_cache.Prelude.Int64.{lt64}
use go_build_cache.Prelude.Maps.{get, string_eq}
use go_build_cache.Digest.{Digest, to_string}
use go_build_cache.Model.{Entry}
use go_build_cache.Reader.{ref_before, new_entry_reader}
use go_build_cache.Reader.Whole.{contents, read_all, read_all-contents}
use go_build_cache.Store.{MemoryStore, new_memory_store}
use go_build_cache.Store.Blobs.{get_blob}
use go_build_cache.Tests.{sha, app}

abbrev other : Digest
other = record { algo = "sha256"; hex = "00" }

-- Two chunks, declared in the wrong order.
abbrev swapped : Entry
swapped = record app {
  chunks =
      record { index = 1; size = 2; digest = other }
      ∷ record { index = 0; size = 3; digest = sha }
      ∷ [];
}

abbrev two_blobs : MemoryStore
two_blobs = record new_memory_store {
  blobs = (to_string sha, 1 ∷ 2 ∷ 3 ∷ []) ∷ (to_string other, 4 ∷ 5 ∷ []) ∷ [];
}

swapped_contents :
    contents two_blobs (sort_by ref_before swapped.chunks) ≡ ok (1 ∷ 2 ∷ 3 ∷ 4 ∷ 5 ∷ [])
unfolding get_blob get sort_by insert_by ref_before lt64 to_string
swapped_contents = refl

read_all-contents_example :
    read_all 6 two_blobs (λ k. 2) (new_entry_reader swapped) ≡ some (1 ∷ 2 ∷ 3 ∷ 4 ∷ 5 ∷ [])
read_all-contents_example =
    read_all-contents two_blobs (λ k. 2) 6 swapped (1 ∷ 2 ∷ 3 ∷ 4 ∷ 5 ∷ []) (λ k. omega arith)
      swapped_contents (omega arith)
