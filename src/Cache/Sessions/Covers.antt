-- ===== src/Cache/Sessions/Covers.antt =====
-- What the check of the declared chunks establishes.
use go_build_cache.Prelude.{
  ℕ, ◌+◌, ◌<◌, String, ◌≡◌, refl, Bool, true, false, List, [], ◌∷◌, arith, ◌==◌, ==_iff,
  if◌then◌else◌, Bool-cases, In, In-sort_by, sort_by, inl, inr,
}
use go_build_cache.Prelude.Exec.{Result, ok, err, Done, Result-cases}
use go_build_cache.Prelude.Int64.{lt64, le64, two64, two63, add64_exact}
use go_build_cache.Model.{ChunkSpec}
use go_build_cache.Errors.{Error}
use go_build_cache.Cache.Sessions.Chunks.{
  check_chunk, check_chunks, check_offsets, normalize_chunks, index_before, starts_at_zero,
  after_check, is_empty,
}

-- The chunks lie one behind the other from `start` on, and end at `total`. The sums do not wrap.
abbrev pub Covers : ℕ → List ChunkSpec → ℕ → Type 0
Covers start [] total = start ≡ total
Covers start (ch ∷ chs) total = (ch.offset ≡ start) × Covers (start + ch.size) chs total

-- Sizes and offsets are 64-bit patterns.
abbrev pub Patterns : List ChunkSpec → Type 0
Patterns chs = (ch : ChunkSpec) → In ch chs → (ch.size < two64) × (ch.offset < two64)

abbrev InRange : ChunkSpec → Type 0
InRange ch = (ch.size < two63) × (ch.offset < two63)

check_chunk-InRange :
    (algo : String) (seen : List ℕ) (ch : ChunkSpec)
    → ch.size < two64
    → ch.offset < two64
    → check_chunk algo seen ch ≡ ok tt
    → InRange ch
unfolding check_chunk lt64 le64
check_chunk-InRange algo seen ch s o h = ground (arith, h)

check_chunks-InRange :
    (algo : String) (seen : List ℕ) (chs : List ChunkSpec)
    → Patterns chs
    → check_chunks algo seen chs ≡ ok tt
    → (ch : ChunkSpec) → In ch chs
    → InRange ch
unfolding check_chunks
check_chunks-InRange algo seen [] p h ch i = elim i [ ]
check_chunks-InRange algo seen (c ∷ cs) p h ch i = elim (Result-cases (check_chunk algo seen c)) [
  | inl (u, e) ↦ elim i [
    | inl q ↦ rw q (check_chunk-InRange algo seen c (p c (inl refl)).0 (p c (inl refl)).1 e)
    | inr j ↦ check_chunks-InRange algo (c.index ∷ seen) cs (λ x k. p x (inr k)) (rw e at h) ch j
  ]
  | inr (x, e) ↦ absurd (cc (rw e at h))
]

check_offsets-Covers :
    (total start : ℕ) (chs : List ChunkSpec)
    → ((ch : ChunkSpec) → In ch chs → InRange ch)
    → check_offsets total start chs ≡ ok tt
    → Covers start chs total
unfolding check_offsets
check_offsets-Covers total start [] r h = ground (arith, h)
check_offsets-Covers total start (ch ∷ chs) r h = elim (Bool-cases (ch.offset == start)) [
  | inl y ↦
      let same = (==_iff ch.offset start).0 y in
      let (sz, off) = r ch (inl refl) in
      let exact = add64_exact start ch.size (omega arith) in
      (
        same,
        check_offsets-Covers total (start + ch.size) chs (λ x i. r x (inr i)) (rw (y, exact) at h),
      )
  | inr n ↦ absurd (cc (rw n at h))
]

-- The parts of a check that passes.
passed_parts :
    (empty : Bool) (x : Error) (first second : Result Error Done) (sorted out : List ChunkSpec)
    → (if empty
        then err x
        else after_check first
            (if starts_at_zero sorted then after_check second (ok sorted) else ok sorted))
      ≡ ok out
    → starts_at_zero out ≡ true
    → (first ≡ ok tt) × (out ≡ sorted) × (second ≡ ok tt)
passed_parts true x first second sorted out h z = absurd (cc h)
passed_parts false x (err e) second sorted out h z = absurd (cc h)
passed_parts false x (ok u) second sorted out h z = elim (Bool-cases (starts_at_zero sorted)) [
  | inl y ↦ elim (Result-cases second) [
    | inl (w, q) ↦ (refl, cc (rw (y, q) at h), q)
    | inr (e, q) ↦ absurd (cc (rw (y, q) at h))
  ]
  | inr n ↦ absurd (cc (rw n at h, z, n))
]

-- Where normalizeChunks accepts chunks of which the first has the number 0, they cover the declared
-- size exactly, without a gap or an overlap, and no sum has wrapped; for chunks whose sizes and offsets
-- are 64-bit patterns.
pub normalize_chunks-Covers :
    (chunks out : List ChunkSpec) (total : ℕ) (algo : String)
    → Patterns chunks
    → normalize_chunks chunks total algo ≡ ok out
    → starts_at_zero out ≡ true
    → Covers 0 out total
unfolding normalize_chunks
normalize_chunks-Covers chunks out total algo p h z =
    let (a, b, c) =
      passed_parts (is_empty chunks) _ (check_chunks algo [] chunks)
        (check_offsets total 0 (sort_by index_before chunks)) (sort_by index_before chunks) out h
        z in
    rw b (
      check_offsets-Covers total 0 (sort_by index_before chunks)
        (λ ch i. check_chunks-InRange algo [] chunks p a ch (In-sort_by index_before ch chunks i))
        c)
