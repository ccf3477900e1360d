-- ===== src/Cache/Sessions/Chunks.antt =====
-- cache.go: the check of the declared chunks of a session, and the comparison of a repeated request with
-- the session it made. An `int` is a 64-bit pattern too.
use Prim.Native.String.{◌++◌}
use go_build_cache.Prelude.{
  ℕ, String, Bool, true, false, not, ◌&&◌, Option, none, some, List, [], ◌∷◌, if◌then◌else◌, str_eq,
  any, sort_by, ◌==◌,
}
use go_build_cache.Prelude.Exec.{Result, ok, err, Done}
use go_build_cache.Prelude.Int64.{add64, lt64, le64}
use go_build_cache.Prelude.Text.{itoa}
use go_build_cache.Digest.{valid, equal}
use go_build_cache.Model.{ChunkSpec}
use go_build_cache.Errors.{Error, plain}

abbrev pub index_before : ChunkSpec → ChunkSpec → Bool
index_before a b = lt64 a.index b.index

-- The loop's tests on one chunk, with the indices that were seen before.
unfoldable pub check_chunk : String → List ℕ → ChunkSpec → Result Error Done
check_chunk algo seen ch =
    if lt64 ch.index 0
    then err (plain ("buildcache: chunk index must be non-negative, got " ++ itoa ch.index))
    else if any (λ i. i == ch.index) seen
    then err (plain ("buildcache: duplicate chunk index " ++ itoa ch.index))
    else if le64 ch.size 0
    then err (plain ("buildcache: chunk " ++ itoa ch.index ++ " size must be positive"))
    else if lt64 ch.offset 0
    then err (plain ("buildcache: chunk " ++ itoa ch.index ++ " offset must be non-negative"))
    else if not (valid ch.digest)
    then err (plain ("buildcache: chunk " ++ itoa ch.index ++ " has invalid digest"))
    else if not (str_eq ch.digest.algo algo)
    then err (
        plain (
          "buildcache: chunk "
          ++ itoa ch.index
          ++ " digest algo \""
          ++ ch.digest.algo
          ++ "\" differs from final \""
          ++ algo
          ++ "\""))
    else ok tt

abbrev pub after_check : {A : Type 0} → Result Error Done → Result Error A → Result Error A
after_check (ok u) r = r
after_check (err e) r = err e

unfoldable pub check_chunks : String → List ℕ → List ChunkSpec → Result Error Done
check_chunks algo seen [] = ok tt
check_chunks algo seen (ch ∷ chs) =
    after_check (check_chunk algo seen ch) (check_chunks algo (ch.index ∷ seen) chs)

-- The loop over the sorted chunks, with the offset that is expected next.
unfoldable pub check_offsets : ℕ → ℕ → List ChunkSpec → Result Error Done
check_offsets total expect [] =
    if not (expect == total)
    then err (
        plain (
          "buildcache: chunk sizes sum to "
          ++ itoa expect
          ++ " but total size declared as "
          ++ itoa total))
    else ok tt
check_offsets total expect (ch ∷ chs) =
    let rest = check_offsets total (add64 expect ch.size) chs in
    if not (ch.offset == expect)
    then err (
        plain (
          "buildcache: chunks are not contiguous: index "
          ++ itoa ch.index
          ++ " offset "
          ++ itoa ch.offset
          ++ ", expected "
          ++ itoa expect))
    else rest

abbrev pub starts_at_zero : List ChunkSpec → Bool
starts_at_zero [] = false
starts_at_zero (ch ∷ chs) = ch.index == 0

abbrev pub is_empty : List ChunkSpec → Bool
is_empty [] = true
is_empty (ch ∷ chs) = false

-- normalizeChunks
unfoldable pub normalize_chunks : List ChunkSpec → ℕ → String → Result Error (List ChunkSpec)
normalize_chunks chunks total algo =
    let out = sort_by index_before chunks in
    if is_empty chunks
    then err (plain "buildcache: at least one chunk is required")
    else after_check (check_chunks algo [] chunks)
        (if starts_at_zero out then after_check (check_offsets total 0 out) (ok out) else ok out)

-- chunkSpecByIndex
unfoldable pub chunk_spec_by_index : List ChunkSpec → ℕ → Option ChunkSpec
chunk_spec_by_index [] index = none
chunk_spec_by_index (ch ∷ chs) index =
    let rest = chunk_spec_by_index chs index in if ch.index == index then some ch else rest

-- Go's == on chunk declarations.
abbrev pub same_chunk : ChunkSpec → ChunkSpec → Bool
same_chunk a b =
    a.index == b.index && (a.offset == b.offset && (a.size == b.size && equal a.digest b.digest))

-- The lengths are compared first, so that the loop meets pairs only.
abbrev pub same_chunks : List ChunkSpec → List ChunkSpec → Bool
same_chunks [] bs = true
same_chunks (a ∷ more) [] = true
same_chunks (a ∷ more) (b ∷ bs) = same_chunk a b && same_chunks more bs
