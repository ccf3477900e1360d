-- ===== src/Files/Audit.antt =====
-- file_store.go: the audit log, one line of JSON for each record.
pub mod RoundTrip
use go_build_cache.Prelude.{
  ℕ, Bool, true, false, ◌&&◌, ◌||◌, Option, none, some, List, [], ◌∷◌, ◌++◌, leb, ◌==◌,
  if◌then◌else◌,
}
use go_build_cache.Prelude.Exec.{Result, ok, err, Exec, Done}
use go_build_cache.Prelude.Maps.{get, put}
use go_build_cache.Model.{GcRecord}
use go_build_cache.Errors.{Error, plain}
use go_build_cache.Store.{Bytes}
use go_build_cache.Reader.{take}
use go_build_cache.Files.Paths.{FilePath, join}
use go_build_cache.Files.System.{path_eq}
use go_build_cache.Files.Metadata.{Codec, FileStore, onto_decoded}

abbrev pub audit_path : FilePath → FilePath
audit_path root = join root ("audit.log" ∷ [])

abbrev pub newline : ℕ
newline = 10

-- What the system answers to one append: the number of bytes after which f.Write fails, if it does, and
-- the error of f.Sync.
pub record AppendAttempt : Type 0 where
  pub torn : Option (ℕ × Error)
  pub sync_failure : Option Error

abbrev pub no_file : Error
no_file = plain "open audit.log: no such file or directory"

-- The ASCII part of unicode.IsSpace.
unfoldable pub is_space : ℕ → Bool
is_space b = (leb 9 b && leb b 13) || b == 32

unfoldable pub trim_left : Bytes → Bytes
unfolding is_space
trim_left [] = []
trim_left (b ∷ bytes) = let rest = trim_left bytes in if is_space b then rest else b ∷ bytes

abbrev pub unless_blank : ℕ → Bool → Bytes → Bytes
unless_blank b true [] = []
unless_blank b false [] = b ∷ []
unless_blank b space (x ∷ rest) = b ∷ x ∷ rest

unfoldable pub trim_right : Bytes → Bytes
unfolding is_space
trim_right [] = []
trim_right (b ∷ bytes) = unless_blank b (is_space b) (trim_right bytes)

-- bytes.TrimSpace
unfoldable pub trim_space : Bytes → Bytes
unfolding trim_left trim_right
trim_space bytes = trim_right (trim_left bytes)

abbrev pub onto_line : ℕ → List Bytes → List Bytes
onto_line b [] = (b ∷ []) ∷ []
onto_line b (line ∷ lines) = (b ∷ line) ∷ lines

-- What ReadBytes('\n') returns call by call, without the newlines.
unfoldable pub split_lines : Bytes → List Bytes
split_lines [] = [] ∷ []
split_lines (b ∷ bytes) =
    let rest = split_lines bytes in if b == newline then [] ∷ rest else onto_line b rest

-- What stands in the log after f.Write of a line.
abbrev pub log_after : Option (ℕ × Error) → Bytes → Bytes → Bytes
log_after none old line = old ++ line
log_after (some (n, e)) old line = old ++ take n line

-- `return f.Sync()`
abbrev pub synced : Option Error → Result Error Done
synced none = ok tt
synced (some e) = err e

abbrev pub append_outcome : Option (ℕ × Error) → Option Error → Result Error Done
append_outcome (some (n, e)) sync = err e
append_outcome none sync = synced sync

module _ (c : Codec GcRecord) where
  -- One line of the loop: a blank one and one that does not parse are passed over.
  abbrev pub onto_records : Bytes → List GcRecord → List GcRecord
  onto_records [] rest = rest
  onto_records (b ∷ line) rest = onto_decoded c (c.decode (b ∷ line)) rest

  unfoldable pub records_in : List Bytes → List GcRecord
  unfolding trim_space
  records_in [] = []
  records_in (line ∷ lines) = onto_records (trim_space line) (records_in lines)

  abbrev pub appended :
      AppendAttempt → Result Error Bytes → Option Bytes → Exec Error FileStore Done
  appended a (err e) found s = (err e, s)
  appended a (ok bytes) none s = (err no_file, s)
  appended a (ok bytes) (some old) s = (
    append_outcome a.torn a.sync_failure,
    record s {
      files = put (audit_path s.root) (log_after a.torn old (bytes ++ newline ∷ [])) s.files;
    },
  )

  -- AppendAudit
  unfoldable pub append_audit_file : AppendAttempt → GcRecord → Exec Error FileStore Done
  append_audit_file a rec s = appended a (c.encode rec) (get (audit_path s.root) s.files) s

  -- ListAudit
  unfoldable pub list_audit_file : FileStore → Result Error (List GcRecord)
  unfolding records_in split_lines
  list_audit_file s = elim (get (audit_path s.root) s.files) [
    | none ↦ err no_file
    | some bytes ↦ ok (records_in (split_lines bytes))
  ]
