-- ===== src/Reader.antt =====
-- reader.go: EntryReader, which reads the chunks of an entry one after the other. The reader keeps the
-- chunks that it has not finished in place of their number, and of an open blob the bytes that are left.
-- The store is an argument of each read, since it may change between two of them.
use go_build_cache.Prelude.{
  ℕ, zero, suc, Bool, true, false, Option, none, some, List, [], ◌∷◌, ◌++◌, sort_by, if◌then◌else◌,
}
use go_build_cache.Prelude.Exec.{Result, ok, err}
use go_build_cache.Prelude.Int64.{lt64}
use go_build_cache.Model.{ChunkRef, Entry}
use go_build_cache.Errors.{Error}
use go_build_cache.Store.{MemoryStore, Bytes}
use go_build_cache.Store.Blobs.{get_blob}
pub mod Whole

pub record EntryReader : Type 0 where
  pub entry : Entry
  pub left : List ChunkRef
  pub open_blob : Option Bytes
  pub closed : Bool

unfoldable pub ref_before : ChunkRef → ChunkRef → Bool
ref_before a b = lt64 a.index b.index

-- newEntryReader
unfoldable pub new_entry_reader : Entry → EntryReader
new_entry_reader e =
    let chunks = sort_by ref_before e.chunks in
    record { entry = record e { chunks = chunks }; left = chunks; open_blob = none; closed = false }

abbrev pub take {ℓ} : {A : Type ℓ} → ℕ → List A → List A
take zero xs = []
take (suc n) [] = []
take (suc n) (x ∷ xs) = x ∷ take n xs

abbrev pub drop {ℓ} : {A : Type ℓ} → ℕ → List A → List A
drop zero xs = xs
drop (suc n) [] = []
drop (suc n) (x ∷ xs) = drop n xs

pub data ReadResult : Type 0 where
  got : Bytes → ReadResult
  eof closed_pipe : ReadResult
  failed : Error → ReadResult

-- What stays of the reader when a read returns: the chunks that are not finished, and the open blob.
pub record Position : Type 0 where
  pub left : List ChunkRef
  pub open_blob : Option Bytes

-- `bytes.Reader.Read` into a buffer of `n` bytes, where some are left.
abbrev pub some_bytes : ℕ → List ChunkRef → Bytes → ReadResult × Position
some_bytes n left bytes =
    (got (take n bytes), record { left = left; open_blob = some (drop n bytes) })

-- An open blob at its end is closed, and the loop goes on with the next chunk.
abbrev pub from_blob : ℕ → List ChunkRef → ReadResult × Position → Bytes → ReadResult × Position
from_blob n left next [] = next
from_blob n left next (b ∷ bs) = some_bytes n left (b ∷ bs)

abbrev pub from_opened :
    ℕ → List ChunkRef → ReadResult × Position → Result Error Bytes → ReadResult × Position
from_opened n left next (err e) = (failed e, record { left = left; open_blob = none })
from_opened n left next (ok bytes) = from_blob n left next bytes

-- The loop of EntryReader.Read, which opens a blob where none is open.
unfoldable pub read_chunks : MemoryStore → ℕ → List ChunkRef → ReadResult × Position
read_chunks m n [] = (eof, record { left = []; open_blob = none })
read_chunks m n (ref ∷ refs) =
    from_opened n (ref ∷ refs) (read_chunks m n refs) (get_blob ref.digest m)

unfoldable pub read_left : MemoryStore → ℕ → List ChunkRef → Option Bytes → ReadResult × Position
unfolding read_chunks
read_left m n refs none = read_chunks m n refs
read_left m n [] (some bytes) = (eof, record { left = []; open_blob = some bytes })
read_left m n (ref ∷ refs) (some bytes) = from_blob n (ref ∷ refs) (read_chunks m n refs) bytes

-- EntryReader.Read into a buffer of `n` bytes
unfoldable pub read_entry : MemoryStore → ℕ → EntryReader → ReadResult × EntryReader
read_entry m n r =
    let (res, at) = read_left m n r.left r.open_blob in
    if r.closed
    then (closed_pipe, r)
    else (res, record r { left = at.left; open_blob = at.open_blob })

-- EntryReader.Close
unfoldable pub close : EntryReader → EntryReader
close r = record r { open_blob = none; closed = true }
