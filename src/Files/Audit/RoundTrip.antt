-- ===== src/Files/Audit/RoundTrip.antt =====
-- AppendAudit and ListAudit in file_store.go: what was appended is read back, in order.
use mathlib.Core.List.{append_assoc, append-nil}
use go_build_cache.Prelude.{
  ℕ, ◌≡◌, ◌≢◌, refl, sym, ap, ◌∙◌, Bool, true, false, not, ◌&&◌, some, List, [], ◌∷◌, ◌++◌, arith,
  ◌==◌, Bool-cases, inl, inr, ◌⊎◌, Option, none,
}
use go_build_cache.Prelude.Exec.{Result, ok, err, Done}
use go_build_cache.Prelude.Maps.{get, put, get-put}
use go_build_cache.Model.{GcRecord}
use go_build_cache.Errors.{Error}
use go_build_cache.Store.{Bytes}
use go_build_cache.Reader.{take}
use go_build_cache.Files.Paths.{FilePath}
use go_build_cache.Files.System.{FileMap, same_path_iff, path_eq}
use go_build_cache.Files.Metadata.{Codec, FileStore, onto_decoded}
use go_build_cache.Files.Audit.{
  audit_path, newline, AppendAttempt, append_outcome, log_after, synced, trim_space, trim_left,
  trim_right, onto_line, split_lines, onto_records, records_in, append_audit_file, list_audit_file,
}

onto_line-append :
    (b : ℕ) (bytes : Bytes) (more : List Bytes)
    → onto_line b (split_lines bytes ++ more) ≡ onto_line b (split_lines bytes) ++ more
unfolding split_lines
onto_line-append b [] more = refl
onto_line-append b (x ∷ bytes) more = elim (Bool-cases (x == newline)) [
  | inl y ↦ rw y refl
  | inr n ↦ rw n (onto_twice (split_lines bytes))
]
  where
    onto_twice :
        (lines : List Bytes)
        → onto_line b (onto_line x lines ++ more) ≡ onto_line b (onto_line x lines) ++ more
    onto_twice [] = refl
    onto_twice (line ∷ lines) = refl

-- A newline ends a line, whatever stands around it.
split_lines-append :
    (xs ys : Bytes) → split_lines (xs ++ newline ∷ ys) ≡ split_lines xs ++ split_lines ys
unfolding split_lines
split_lines-append [] ys = refl
split_lines-append (b ∷ xs) ys = elim (Bool-cases (b == newline)) [
  | inl y ↦ rw (y, split_lines-append xs ys) refl
  | inr n ↦ rw (n, split_lines-append xs ys) (onto_line-append b xs (split_lines ys))
]

unfoldable pub no_newline : Bytes → Bool
no_newline [] = true
no_newline (b ∷ bytes) = not (b == newline) && no_newline bytes

split_lines-no_newline : (bytes : Bytes) → no_newline bytes ≡ true → split_lines bytes ≡ bytes ∷ []
unfolding split_lines no_newline
split_lines-no_newline [] h = refl
split_lines-no_newline (b ∷ bytes) h =
    rw (split_lines-no_newline bytes (ground (arith, h)), other b (no_newline bytes) h) refl
  where
    other : (b : ℕ) (rest : Bool) → (not (b == newline) && rest) ≡ true → (b == newline) ≡ false
    other b rest h = ground (arith, h)

-- The log is empty or ends with a newline.
abbrev pub Terminated : Bytes → Type 0
Terminated log = (log ≡ []) ⊎ ((lines : Bytes) × (log ≡ lines ++ newline ∷ []))

get-put_self :
    (path : FilePath) (bytes : Bytes) (files : FileMap)
    → get path (put path bytes files) ≡ some bytes
get-put_self path bytes files =
    rw (get-put path path bytes files, (same_path_iff path path).1 refl) refl

module _ (c : Codec GcRecord) where
  -- `bytes` is a line of its own that says `rec`.
  abbrev pub Says : GcRecord → Bytes → Type 0
  Says rec bytes =
      (no_newline bytes ≡ true)
      × (bytes ≢ [])
      × (trim_space bytes ≡ bytes)
      × (c.decode bytes ≡ ok rec)

  records_in-append :
      (xs ys : List Bytes) → records_in c (xs ++ ys) ≡ records_in c xs ++ records_in c ys
  unfolding records_in
  records_in-append [] ys = refl
  records_in-append (line ∷ xs) ys =
      rw (records_in-append xs ys) (passed (trim_space line) (records_in c xs) (records_in c ys))
    where
      read :
          (r : Result Error GcRecord) (rs more : List GcRecord)
          → onto_decoded c r (rs ++ more) ≡ onto_decoded c r rs ++ more
      read (err e) rs more = refl
      read (ok rec) rs more = refl

      passed :
          (line : Bytes) (rs more : List GcRecord)
          → onto_records c line (rs ++ more) ≡ onto_records c line rs ++ more
      passed [] rs more = refl
      passed (b ∷ line) rs more = read (c.decode (b ∷ line)) rs more

  records_in-line :
      (rec : GcRecord) (bytes : Bytes) → Says rec bytes → records_in c (bytes ∷ [] ∷ []) ≡ rec ∷ []
  unfolding records_in trim_space
  records_in-line rec [] says = absurd (says.1 refl)
  records_in-line rec (b ∷ bytes) says = rw (says.2, says.3) refl

  records_in_nothing : records_in c (split_lines []) ≡ []
  unfolding records_in split_lines trim_space trim_left trim_right
  records_in_nothing = refl

  records_in_terminated :
      (lines : Bytes)
      → records_in c (split_lines (lines ++ newline ∷ [])) ≡ records_in c (split_lines lines)
  records_in_terminated lines =
      ap (records_in c) (split_lines-append lines [])
      ∙ records_in-append (split_lines lines) (split_lines [])
      ∙ rw records_in_nothing (append-nil (records_in c (split_lines lines)))

  last_line :
      (rec : GcRecord) (bytes : Bytes)
      → Says rec bytes
      → split_lines (bytes ++ newline ∷ []) ≡ bytes ∷ [] ∷ []
  last_line rec bytes says =
      split_lines-append bytes []
      ∙ rw (split_lines-no_newline bytes says.0) (unfold split_lines in refl)

  -- What stands behind a log that is terminated is read behind its records.
  records_in_behind :
      (log more : Bytes)
      → Terminated log
      → records_in c (split_lines (log ++ more))
        ≡ records_in c (split_lines log) ++ records_in c (split_lines more)
  records_in_behind log more (inl h) = rw (h, records_in_nothing) refl
  records_in_behind log more (inr (lines, h)) =
      ap (records_in c) split_both
      ∙ records_in-append (split_lines lines) (split_lines more)
      ∙ rw (h, records_in_terminated lines) refl
    where
      split_both : split_lines (log ++ more) ≡ split_lines lines ++ split_lines more
      split_both =
          rw h (
            ap split_lines (append_assoc lines (newline ∷ []) more) ∙ split_lines-append lines more)

  records-appended :
      (log bytes : Bytes) (rec : GcRecord)
      → Terminated log
      → Says rec bytes
      → records_in c (split_lines (log ++ (bytes ++ newline ∷ [])))
        ≡ records_in c (split_lines log) ++ rec ∷ []
  records-appended log bytes rec ended says =
      records_in_behind log (bytes ++ newline ∷ []) ended
      ∙ rw (last_line rec bytes says, records_in-line rec bytes says) refl

  -- What AppendAudit of `rec` returns and leaves, over a log with `records`: the whole record, whether
  -- the sync fails or not, or, where the write breaks off, every earlier record.
  abbrev pub Appended :
      GcRecord
      → List GcRecord
      → Option (ℕ × Error)
      → Option Error
      → Result Error Done
      → FileStore
      → Type 0
  Appended rec records none sync r s =
      (r ≡ synced sync)
      × (list_audit_file c s ≡ ok (records ++ rec ∷ []))
      × (log : Bytes) × (get (audit_path s.root) s.files ≡ some log)
      × Terminated log
  Appended rec records (some (n, e)) sync r s =
      (r ≡ err e) × (more : List GcRecord) × (list_audit_file c s ≡ ok (records ++ more))

  list-put :
      (s : FileStore) (log : Bytes)
      → list_audit_file c (record s { files = put (audit_path s.root) log s.files })
        ≡ ok (records_in c (split_lines log))
  unfolding list_audit_file
  list-put s log = rw (list_audit_file, get-put_self (audit_path s.root) log s.files) refl

  append-Appended :
      (rec : GcRecord) (s : FileStore) (log bytes : Bytes) (records : List GcRecord)
      (torn : Option (ℕ × Error)) (sync : Option Error)
      → Terminated log
      → Says rec bytes
      → records_in c (split_lines log) ≡ records
      → Appended rec records torn sync (append_outcome torn sync) (record s {
        files = put (audit_path s.root) (log_after torn log (bytes ++ newline ∷ [])) s.files;
      })
  append-Appended rec s log bytes records none sync ended says before =
      let after = log ++ (bytes ++ newline ∷ []) in
      (
        refl,
        list-put s after ∙ rw (records-appended log bytes rec ended says, before) refl,
        after,
        get-put_self (audit_path s.root) after s.files,
        inr (log ++ bytes, sym (append_assoc log bytes (newline ∷ []))),
      )
  append-Appended rec s log bytes records (some (n, e)) sync ended says before =
      let part = take n (bytes ++ newline ∷ []) in
      (
        refl,
        records_in c (split_lines part),
        list-put s (log ++ part) ∙ rw (records_in_behind log part ended, before) refl,
      )

  -- AppendAudit loses no earlier record. When f.Write succeeds, ListAudit gives what
  -- it gave and then the record, the log is terminated again, and AppendAudit returns what f.Sync
  -- returns; when f.Write breaks off after any number of bytes, AppendAudit returns its error, and
  -- ListAudit still gives first what it gave. This is for a log that is there and terminated, and an
  -- encoding that is a line of its own and gives the record back.
  pub append_audit_file-list :
      (a : AppendAttempt) (rec : GcRecord) (s : FileStore) (log bytes : Bytes)
      (records : List GcRecord)
      → get (audit_path s.root) s.files ≡ some log
      → Terminated log
      → c.encode rec ≡ ok bytes
      → Says rec bytes
      → list_audit_file c s ≡ ok records
      → Appended rec records a.torn a.sync_failure
          (append_audit_file c a rec s).0
          (append_audit_file c a rec s).1
  unfolding append_audit_file list_audit_file
  append_audit_file-list a rec s log bytes records there ended encodes says listed =
      let before : records_in c (split_lines log) ≡ records =
        cc (rw (there, list_audit_file) at listed) in
      rw (there, encodes)
        (append-Appended rec s log bytes records a.torn a.sync_failure ended says before)
