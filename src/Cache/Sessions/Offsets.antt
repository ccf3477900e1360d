-- ===== src/Cache/Sessions/Offsets.antt =====
-- normalizeChunks where no chunk has the number 0.
use go_build_cache.Prelude.{
  ℕ, String, ◌≡◌, ◌≢◌, refl, sym, ◌∙◌, Bool, true, false, List, [], ◌∷◌, arith, map, sort_by,
  insert_by, if◌then◌else◌, Bool-cases, inl, inr, In, In-sort_by,
}
use go_build_cache.Prelude.Exec.{Result, ok, err, Done, Result-cases}
use go_build_cache.Prelude.Int64.{lt64}
use go_build_cache.Model.{ChunkSpec}
use go_build_cache.Errors.{Error, plain}
use go_build_cache.Cache.Sessions.Chunks.{
  index_before, check_chunk, after_check, check_chunks, starts_at_zero, is_empty, normalize_chunks,
}

abbrev pub moved : (ChunkSpec → ℕ) → ChunkSpec → ChunkSpec
moved place ch = record ch { offset = place ch }

module _ (place : ChunkSpec → ℕ) (inside : (ch : ChunkSpec) → lt64 (place ch) 0 ≡ false) where
  insert_by-moved :
      (x : ChunkSpec) (xs : List ChunkSpec)
      → insert_by index_before (moved place x) (map (moved place) xs)
        ≡ map (moved place) (insert_by index_before x xs)
  unfolding insert_by
  insert_by-moved x [] = refl
  insert_by-moved x (y ∷ ys) = elim (Bool-cases (lt64 y.index x.index)) [
    | inl e ↦ rw (e, insert_by-moved x ys) refl
    | inr e ↦ rw e refl
  ]

  sort_by-moved :
      (xs : List ChunkSpec)
      → sort_by index_before (map (moved place) xs) ≡ map (moved place) (sort_by index_before xs)
  unfolding sort_by
  sort_by-moved [] = refl
  sort_by-moved (x ∷ xs) = rw (sort_by-moved xs) (insert_by-moved x (sort_by index_before xs))

  check_chunk-moved :
      (algo : String) (seen : List ℕ) (ch : ChunkSpec)
      → check_chunk algo seen ch ≡ ok tt
      → check_chunk algo seen (moved place ch) ≡ ok tt
  unfolding check_chunk
  check_chunk-moved algo seen ch h = ground (arith, h, inside ch)

  check_chunks-moved :
      (algo : String) (seen : List ℕ) (chs : List ChunkSpec)
      → check_chunks algo seen chs ≡ ok tt
      → check_chunks algo seen (map (moved place) chs) ≡ ok tt
  unfolding check_chunks
  check_chunks-moved algo seen [] h = refl
  check_chunks-moved algo seen (ch ∷ chs) h = elim (Result-cases (check_chunk algo seen ch)) [
    | inr (e, x) ↦ absurd (cc (rw x at h))
    | inl (u, x) ↦
        rw (check_chunk-moved algo seen ch x)
          (check_chunks-moved algo (ch.index ∷ seen) chs (rw x at h))
  ]

-- No chunk has the number 0.
abbrev pub NoZero : List ChunkSpec → Type 0
NoZero chs = (ch : ChunkSpec) → In ch chs → ch.index ≢ 0

NoZero-starts : (chs : List ChunkSpec) → NoZero chs → starts_at_zero chs ≡ false
NoZero-starts [] n = refl
NoZero-starts (ch ∷ chs) n = let first = n ch (inl refl) in ground arith

-- What is left of the checks.
normalize_chunks-NoZero :
    (chunks : List ChunkSpec) (total : ℕ) (algo : String)
    → NoZero chunks
    → normalize_chunks chunks total algo ≡ (
        if is_empty chunks
        then normalize_chunks [] 0 ""
        else after_check (check_chunks algo [] chunks) (ok (sort_by index_before chunks)))
unfolding normalize_chunks
normalize_chunks-NoZero chunks total algo n =
    let none_first =
      NoZero-starts (sort_by index_before chunks)
        (λ ch i. n ch (In-sort_by index_before ch chunks i)) in
    rw none_first refl

accepted_parts :
    (empty : Bool) (none_given : Result Error (List ChunkSpec)) (x : Error)
    (first : Result Error Done) (sorted out : List ChunkSpec)
    → none_given ≡ err x
    → (if empty then none_given else after_check first (ok sorted)) ≡ ok out
    → (empty ≡ false) × (first ≡ ok tt) × (out ≡ sorted)
accepted_parts true none_given x first sorted out e h = absurd (cc (h, e))
accepted_parts false none_given x (err y) sorted out e h = absurd (cc h)
accepted_parts false none_given x (ok u) sorted out e h = (refl, refl, cc h)

is_empty-map :
    (place : ChunkSpec → ℕ) (chs : List ChunkSpec) → is_empty (map (moved place) chs) ≡ is_empty chs
is_empty-map place [] = refl
is_empty-map place (ch ∷ chs) = refl

NoZero-moved :
    (place : ChunkSpec → ℕ) (chs : List ChunkSpec) → NoZero chs → NoZero (map (moved place) chs)
NoZero-moved place [] n ch i = elim i [ ]
NoZero-moved place (x ∷ chs) n ch (inl q) = rw q (n x (inl refl))
NoZero-moved place (x ∷ chs) n ch (inr j) = NoZero-moved place chs (λ y k. n y (inr k)) ch j

abbrev none_required : String
none_required = "buildcache: at least one chunk is required"

empty_refused : normalize_chunks [] 0 "" ≡ err (plain none_required)
unfolding normalize_chunks
empty_refused = refl

-- Where no chunk has the number 0, normalizeChunks does not look at where the chunks lie: a list that it
-- accepts for one total size it accepts for every other, with every chunk moved to any offset that is
-- not negative.
pub normalize_chunks-unchecked :
    (chunks out : List ChunkSpec) (total other : ℕ) (algo : String) (place : ChunkSpec → ℕ)
    → NoZero chunks
    → ((ch : ChunkSpec) → lt64 (place ch) 0 ≡ false)
    → normalize_chunks chunks total algo ≡ ok out
    → normalize_chunks (map (moved place) chunks) other algo ≡ ok (map (moved place) out)
normalize_chunks-unchecked chunks out total other algo place n inside h =
    let (some_given, passed, sorted) =
      accepted_parts (is_empty chunks) (normalize_chunks [] 0 "") (plain none_required)
        (check_chunks algo [] chunks) (sort_by index_before chunks) out empty_refused
        (sym (normalize_chunks-NoZero chunks total algo n) ∙ h) in
    normalize_chunks-NoZero (map (moved place) chunks) other algo (NoZero-moved place chunks n)
    ∙ rw
        (
          is_empty-map place chunks,
          some_given,
          check_chunks-moved place inside algo [] chunks passed,
          sort_by-moved place inside chunks,
          sorted,
        )
        refl
