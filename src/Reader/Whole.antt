-- ===== src/Reader/Whole.antt =====
-- Reading an entry to its end, with buffers of any sizes: what comes is the content of the chunks.
use go_build_cache.Prelude.{
  false, subst, ℕ, zero, suc, ◌+◌, ◌<◌, ◌≡◌, refl, sym, ap, ◌∙◌, Option, none, some, List, [], ◌∷◌,
  ◌++◌, sort_by, length, arith,
}
use go_build_cache.Prelude.Exec.{Result, ok, err}
use go_build_cache.Model.{ChunkRef, Entry}
use go_build_cache.Errors.{Error}
use go_build_cache.Store.{MemoryStore, Bytes}
use go_build_cache.Store.Blobs.{get_blob}
use mathlib.Core.List.{append_assoc}
use go_build_cache.Reader.{
  EntryReader, ref_before, new_entry_reader, take, drop, ReadResult, got, eof, closed_pipe, failed,
  Position, from_blob, read_chunks, read_left, read_entry,
}

abbrev pub joined : Result Error Bytes → Result Error Bytes → Result Error Bytes
joined (ok a) (ok b) = ok (a ++ b)
joined (ok a) (err e) = err e
joined (err e) r = err e

-- The content of chunks, where all of them are there.
abbrev pub contents : MemoryStore → List ChunkRef → Result Error Bytes
contents m [] = ok []
contents m (ref ∷ refs) = joined (get_blob ref.digest m) (contents m refs)

-- What a reader has still to give.
abbrev unread : MemoryStore → List ChunkRef → Option Bytes → Result Error Bytes
unread m refs none = contents m refs
unread m [] (some bytes) = ok []
unread m (ref ∷ refs) (some bytes) = joined (ok bytes) (contents m refs)

abbrev pub prepended : Bytes → Option Bytes → Option Bytes
prepended b none = none
prepended b (some rest) = some (b ++ rest)

abbrev pub gathered : ReadResult → Option Bytes → Option Bytes
gathered (got b) later = prepended b later
gathered eof later = some []
gathered closed_pipe later = none
gathered (failed e) later = none

-- A client that reads until the end of the file, with a buffer of its own choice each time.
unfoldable pub read_all : ℕ → MemoryStore → (ℕ → ℕ) → EntryReader → Option Bytes
read_all zero m size r = none
read_all (suc k) m size r =
    gathered (read_entry m (size k) r).0 (read_all k m size (read_entry m (size k) r).1)

take-drop : (n : ℕ) (xs : Bytes) → take n xs ++ drop n xs ≡ xs
take-drop zero xs = refl
take-drop (suc n) [] = refl
take-drop (suc n) (x ∷ xs) = ap (λ (ys : Bytes). x ∷ ys) (take-drop n xs)

length-drop : (n : ℕ) (x : ℕ) (xs : Bytes) → 0 < n → length (drop n (x ∷ xs)) < length (x ∷ xs)
length-drop zero x xs h = elim h [ ]
length-drop (suc zero) x xs h = omega arith
length-drop (suc (suc n)) x [] h = omega arith
length-drop (suc (suc n)) x (y ∷ ys) h = omega (arith, length-drop (suc n) y ys (omega arith))

-- What one read does to what is left: it takes some bytes off its front, or nothing was left.
data Step (m : MemoryStore) (all : Bytes) : ReadResult × Position → Type 0 where
  ended : (at : Position) → all ≡ [] → Step m all (eof, at)
  took :
      (b rest : Bytes) (at : Position)
      → all ≡ b ++ rest
      → length rest < length all
      → unread m at.left at.open_blob ≡ ok rest
      → Step m all (got b, at)

joined-ok :
    (a b : Result Error Bytes) (all : Bytes)
    → joined a b ≡ ok all
    → (x y : Bytes) × (a ≡ ok x) × (b ≡ ok y) × (all ≡ x ++ y)
joined-ok (ok x) (ok y) all h = (x, y, refl, refl, cc)
joined-ok (ok x) (err e) all h = absurd (cc h)
joined-ok (err e) b all h = absurd (cc h)

length-append : (xs ys : Bytes) → length (xs ++ ys) ≡ length xs + length ys
length-append [] ys = omega arith
length-append (x ∷ xs) ys = omega (arith, length-append xs ys)

module _ (m : MemoryStore) (n : ℕ) (some_room : 0 < n) where
  from_blob-Step :
      (ref : ChunkRef) (refs : List ChunkRef) (rest bytes : Bytes) (next : ReadResult × Position)
      → contents m refs ≡ ok rest
      → Step m rest next
      → Step m (bytes ++ rest) (from_blob n (ref ∷ refs) next bytes)
  from_blob-Step ref refs rest [] next c s = s
  from_blob-Step ref refs rest (x ∷ xs) next c s =
      let shorter = length-drop n x xs some_room in
      took (take n (x ∷ xs)) (drop n (x ∷ xs) ++ rest) _
        (ap (λ (ys : Bytes). ys ++ rest) (sym (take-drop n (x ∷ xs)))
          ∙ append_assoc (take n (x ∷ xs)) (drop n (x ∷ xs)) rest)
        (omega (arith, length-append (drop n (x ∷ xs)) rest, length-append (x ∷ xs) rest))
        (rw c refl)

  read_chunks-Step :
      (refs : List ChunkRef) (all : Bytes)
      → contents m refs ≡ ok all
      → Step m all (read_chunks m n refs)
  unfolding read_chunks
  read_chunks-Step [] all h = ended _ (cc h)
  read_chunks-Step (ref ∷ refs) all h =
      let (x, y, a, b, q) = joined-ok (get_blob ref.digest m) (contents m refs) all h in
      rw (a, q) (from_blob-Step ref refs y x _ b (read_chunks-Step refs y b))

  -- Where the chunks that are left are all there, one read gives some of their bytes, or there are none.
  read_left-Step :
      (refs : List ChunkRef) (o : Option Bytes) (all : Bytes)
      → unread m refs o ≡ ok all
      → Step m all (read_left m n refs o)
  unfolding read_left
  read_left-Step refs none all h = read_chunks-Step refs all h
  read_left-Step [] (some bytes) all h = ended _ (cc h)
  read_left-Step (ref ∷ refs) (some bytes) all h =
      let (x, y, a, b, q) = joined-ok (ok bytes) (contents m refs) all h in
      subst (λ (w : Bytes). Step m w (read_left m n (ref ∷ refs) (some bytes))) (cc (a, q))
        (from_blob-Step ref refs y bytes _ b (read_chunks-Step refs y b))

abbrev open_reader : Entry → Position → EntryReader
open_reader e at = record { entry = e; left = at.left; open_blob = at.open_blob; closed = false }

after_step :
    (m : MemoryStore) (size : ℕ → ℕ) (k : ℕ) (e : Entry) (all : Bytes) (r : ReadResult × Position)
    → Step m all r
    → length all < suc k
    → ((at : Position) (rest : Bytes)
        → unread m at.left at.open_blob ≡ ok rest
        → length rest < k
        → read_all k m size (open_reader e at) ≡ some rest)
    → gathered r.0 (read_all k m size (open_reader e r.1)) ≡ some all
after_step m size k e all _ (ended at q) f ih = rw q refl
after_step m size k e all _ (took b rest at q shorter u) f ih =
    rw (ih at rest u (omega arith), q) refl

read_on :
    (m : MemoryStore) (size : ℕ → ℕ) (fuel : ℕ) (e : Entry) (at : Position) (all : Bytes)
    → ((k : ℕ) → 0 < size k)
    → unread m at.left at.open_blob ≡ ok all
    → length all < fuel
    → read_all fuel m size (open_reader e at) ≡ some all
unfolding read_all read_entry
read_on m size zero e at all pos h f = absurd (omega arith)
read_on m size (suc k) e at all pos h f =
    after_step m size k e all (read_left m (size k) at.left at.open_blob)
      (read_left-Step m (size k) (pos k) at.left at.open_blob all h) f
      (λ next rest. read_on m size k e next rest pos)

-- A reader of an entry whose chunks are all there gives their content, in the order of the chunks'
-- numbers, and then the end of the file, whatever the sizes of the buffers, as long as none is empty.
-- One read more than there are bytes is enough.
pub read_all-contents :
    (m : MemoryStore) (size : ℕ → ℕ) (fuel : ℕ) (e : Entry) (all : Bytes)
    → ((k : ℕ) → 0 < size k)
    → contents m (sort_by ref_before e.chunks) ≡ ok all
    → length all < fuel
    → read_all fuel m size (new_entry_reader e) ≡ some all
unfolding new_entry_reader
read_all-contents m size fuel e all pos h f =
    let chunks = sort_by ref_before e.chunks in
    read_on m size fuel (record e { chunks = chunks }) (record { left = chunks; open_blob = none })
      all pos h f
