-- ===== src/Store/Blobs.antt =====
-- memory_store.go: content-addressed blobs.
use go_build_cache.Prelude.{ℕ, not, List, [], ◌∷◌, if◌then◌else◌, length, sort_by, String}
use go_build_cache.Prelude.Exec.{Result, ok, err}
use go_build_cache.Prelude.Maps.{Map, get, put, delete, string_eq}
use go_build_cache.Prelude.Text.{str_lt}
use go_build_cache.Digest.{Digest, valid, parse_digest, to_string}
use go_build_cache.Errors.{Error, blob_not_found, bad_digest, plain}
use go_build_cache.Store.{Bytes, BlobInfo, MemoryStore, or_fail}

-- Content addressing makes a second write of the same digest a write of the same bytes.
unfoldable pub put_blob : Digest → Bytes → MemoryStore → Result Error MemoryStore
put_blob d bytes m =
    if not (valid d)
    then err (plain "buildcache: invalid blob digest")
    else ok (record m { blobs = put (to_string d) bytes m.blobs })

unfoldable pub get_blob : Digest → MemoryStore → Result Error Bytes
get_blob d m = or_fail (get (to_string d) m.blobs) blob_not_found

unfoldable pub blob_size : Digest → MemoryStore → Result Error ℕ
unfolding get_blob
blob_size d m = elim (get_blob d m) [ err e ↦ err e | ok bytes ↦ ok (length bytes) ]

unfoldable pub delete_blob : Digest → MemoryStore → MemoryStore
delete_blob d m = record m { blobs = delete (to_string d) m.blobs }

unfoldable pub add_info :
    String → Bytes → Result Error (List BlobInfo) → Result Error (List BlobInfo)
add_info k bytes rest = elim (parse_digest k) [
  | err e ↦ err (bad_digest e)
  | ok d ↦ elim rest [
    | err e ↦ err e
    | ok infos ↦ ok (record { digest = d; size = length bytes } ∷ infos)
  ]
]

-- The loop over the blob map, before the sort.
unfoldable pub blob_infos : Map String Bytes → Result Error (List BlobInfo)
unfolding add_info
blob_infos [] = ok []
blob_infos ((k, bytes) ∷ m) = add_info k bytes (blob_infos m)

unfoldable pub list_blobs : MemoryStore → Result Error (List BlobInfo)
list_blobs m = elim (blob_infos m.blobs) [
  | err e ↦ err e
  | ok infos ↦ ok (sort_by (λ a b. str_lt (to_string a.digest) (to_string b.digest)) infos)
]
