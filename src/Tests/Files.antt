-- ===== src/Tests/Files.antt =====
-- The file store: a write that fails half-way, an entry written, an audit record appended.
use go_build_cache.Prelude.{◌≡◌, refl, none, some, [], ◌∷◌, inr, arith, sort_by}
use go_build_cache.Prelude.Int64.{lt64}
use go_build_cache.Prelude.Exec.{Result, ok, err, Done}
use go_build_cache.Prelude.Maps.{get, put as put_at, delete, string_eq}
use go_build_cache.Model.{Entry, GcRecord, gc_start}
use go_build_cache.Digest.{no_digest}
use go_build_cache.Errors.{Error, plain, entry_not_found}
use go_build_cache.Store.{MemoryStore, new_memory_store}
use go_build_cache.Store.Entries.{put_entry, get_entry}
use go_build_cache.Store.Entries.Swap.{no_nul}
use go_build_cache.Files.Paths.{
  FilePath, entry_path, join, enter, enter_all, split_slash, escape_key, escape_pair,
}
use go_build_cache.Files.Paths.Plain.{is_plain}
use go_build_cache.Files.System.{
  same_path, path_eq, FileMap, sync, Attempt, temp_path, write_temp, write_atomic, rename_file,
}
use go_build_cache.Files.System.Write.{landed, write_atomic_lem}
use go_build_cache.Files.Metadata.{
  Codec, FileStore, load, save, write_file, is_json_in, has_suffix, load_below, is_json_below,
  is_below,
}
use go_build_cache.Files.Opening.{
  new_file_store, migrate_legacy_entries, migrate_all, migrate_file, remove_existing, json_files_in,
}
use go_build_cache.Files.Entries.{put_entry_file, read_entry_file, list_entry_files, entry_guard}
use go_build_cache.Files.Entries.Agreement.{Answers, put_entry_file-Answers}
use go_build_cache.Files.Entries.Identity.{is_separate}
use go_build_cache.Files.Entries.Runs.{new_files, settled, Run, opened, put, run-Refines}
use go_build_cache.Files.Audit.{
  trim_space, trim_left, trim_right, is_space, AppendAttempt, append_audit_file, list_audit_file,
  records_in, split_lines,
}
use go_build_cache.Files.Audit.RoundTrip.{Appended, no_newline, append_audit_file-list}
use go_build_cache.Tests.{app}

abbrev app_path : FilePath
app_path = "app.json" ∷ "default" ∷ "entries" ∷ "cache" ∷ []

abbrev sync_fails : Attempt
sync_fails = record {
  tmp_name = "81";
  failure =
      λ step. elim step [ sync ↦ some (plain "sync: no space left on device") | other ↦ none ];
}

abbrev old_files : FileMap
old_files = (app_path, 7 ∷ []) ∷ []

write_atomic_lem_example :
    get app_path (write_atomic sync_fails app_path (1 ∷ 2 ∷ []) old_files).1
    ≡ landed
        (write_atomic sync_fails app_path (1 ∷ 2 ∷ []) old_files).0
        app_path
        (1 ∷ 2 ∷ [])
        app_path
        old_files
unfolding temp_path get same_path
write_atomic_lem_example =
    write_atomic_lem sync_fails app_path (1 ∷ 2 ∷ []) old_files (refl, refl) app_path

-- The failed write has left the old content.
sync_failed :
    get app_path (write_atomic sync_fails app_path (1 ∷ 2 ∷ []) old_files).1 ≡ some (7 ∷ [])
unfolding write_atomic write_temp rename_file temp_path get put_at delete same_path
sync_failed = refl

abbrev sound : Attempt
sound = record { tmp_name = "82"; failure = λ step. none }

-- An encoding that keeps the version, of entries that are `app` but for it.
abbrev app_codec : Codec Entry
app_codec = record {
  encode = λ e. ok (e.version ∷ []);
  decode = λ bytes. elim bytes [
    | [] ↦ err (plain "unexpected end of JSON input")
    | v ∷ rest ↦ ok (record app { version = v })
  ];
}

abbrev empty_files : FileStore
empty_files = record { root = "cache" ∷ []; files = [] }

put_entry_file-Answers_example :
    Answers app_codec sound
      (put_entry_file app_codec sound app 18446744073709551615 empty_files).0
      (put_entry_file app_codec sound app 18446744073709551615 empty_files).1
      (put_entry app 18446744073709551615 new_memory_store)
      new_memory_store
unfolding temp_path get same_path is_separate is_plain no_nul read_entry_file load get_entry
    entry_path join enter_all enter split_slash escape_key escape_pair
put_entry_file-Answers_example =
    put_entry_file-Answers app_codec sound app 18446744073709551615 empty_files new_memory_store
      (3 ∷ []) refl refl refl (omega arith) (refl, refl) (λ ns key h. refl)

-- `app` is written, then a write of its next version fails at the sync.
abbrev first_write : Result Error Done × FileStore
first_write = put_entry_file app_codec sound app 18446744073709551615 (new_files ("cache" ∷ []))

abbrev first_memory : MemoryStore
first_memory =
    settled first_write.0 (put_entry app 18446744073709551615 new_memory_store) new_memory_store

abbrev app_again : Entry
app_again = record app { version = 4 }

abbrev second_write : Result Error Done × FileStore
second_write = put_entry_file app_codec sync_fails app_again 3 first_write.1

abbrev second_memory : MemoryStore
second_memory = settled second_write.0 (put_entry app_again 3 first_memory) first_memory

app_run : Run app_codec second_write.1 second_memory
unfolding put_entry_file write_file write_atomic write_temp rename_file save temp_path get put_at
    delete same_path is_separate is_plain no_nul read_entry_file load entry_path join enter_all
    enter split_slash escape_key escape_pair entry_guard lt64
app_run =
    put sync_fails app_again 3 first_write.1 first_memory (4 ∷ [])
      (put sound app 18446744073709551615 (new_files ("cache" ∷ [])) new_memory_store (3 ∷ [])
        (opened ("cache" ∷ [])) refl refl refl (omega arith) (refl, refl))
      refl refl refl (omega arith) (refl, refl)

run-Refines_example :
    read_entry_file app_codec "default" "app" second_write.1
    ≡ get_entry "default" "app" second_memory
unfolding is_separate is_plain no_nul
run-Refines_example =
    run-Refines app_codec second_write.1 second_memory app_run "default" "app" refl

abbrev started : GcRecord
started = record {
  time = 5;
  generation = 1;
  action = gc_start;
  blob = no_digest;
  key = "";
  session_id = "";
  reason = "";
  detail = "";
}

-- The record as `{}`, which stands for a run that starts.
abbrev audit_codec : Codec GcRecord
audit_codec = record { encode = λ rec. ok (123 ∷ 125 ∷ []); decode = λ bytes. ok started }

abbrev with_log : FileStore
with_log = record {
  root = "cache" ∷ [];
  files = ("audit.log" ∷ "cache" ∷ [], 123 ∷ 125 ∷ 10 ∷ []) ∷ [];
}

-- The write breaks off after two bytes.
abbrev breaks_off : AppendAttempt
breaks_off = record { torn = some (2, plain "write: no space left on device"); sync_failure = none }

append_audit_file-list_example :
    Appended audit_codec started
      (started ∷ [])
      breaks_off.torn
      breaks_off.sync_failure
      (append_audit_file audit_codec breaks_off started with_log).0
      (append_audit_file audit_codec breaks_off started with_log).1
unfolding get same_path join enter_all enter split_slash no_newline trim_space trim_left trim_right
    is_space list_audit_file records_in split_lines
append_audit_file-list_example =
    append_audit_file-list audit_codec breaks_off started with_log (123 ∷ 125 ∷ 10 ∷ [])
      (123 ∷ 125 ∷ []) (started ∷ []) refl (inr (123 ∷ 125 ∷ [], refl)) refl
      (refl, λ h. absurd (cc h), refl, refl) refl

abbrev half_line : AppendAttempt
half_line = record { torn = some (1, plain "write: no space left on device"); sync_failure = none }

abbrev all_written : AppendAttempt
all_written = record { torn = none; sync_failure = none }

-- An encoding that reads only a whole line.
abbrev strict_codec : Codec GcRecord
strict_codec = record {
  encode = λ rec. ok (123 ∷ 125 ∷ []);
  decode =
      λ bytes. elim bytes [ a ∷ b ∷ [] ↦ ok started | other ↦ err (plain "invalid character") ];
}

-- A record that is appended behind half a line is lost with it, though its append succeeds.
merged_lines :
    ((append_audit_file strict_codec all_written started
        (append_audit_file strict_codec half_line started with_log).1).0
      ≡ ok tt)
    × (list_audit_file strict_codec
          (append_audit_file strict_codec all_written started
            (append_audit_file strict_codec half_line started with_log).1).1
        ≡ ok (started ∷ []))
unfolding append_audit_file get put_at same_path join enter_all enter split_slash trim_space
    trim_left trim_right is_space list_audit_file records_in split_lines
merged_lines = (refl, refl)

abbrev dotted : Entry
dotted = record app { namespace = "." }

abbrev dotted_codec : Codec Entry
dotted_codec = record { encode = λ e. ok (e.version ∷ []); decode = λ bytes. ok dotted }

abbrev after_put : FileStore
after_put = (put_entry_file dotted_codec sound dotted 18446744073709551615 empty_files).1

-- An entry of the namespace "." is read back, but after the next start it is gone.
dotted_lost :
    (read_entry_file dotted_codec "." "app" after_put ≡ ok dotted)
    × (read_entry_file dotted_codec "." "app"
          (new_file_store dotted_codec (λ path. sound) after_put.root after_put.files).1
        ≡ err entry_not_found)
unfolding put_entry_file read_entry_file load save write_file write_atomic write_temp rename_file
    temp_path get put_at delete same_path entry_path join enter_all enter split_slash escape_key
    escape_pair entry_guard new_file_store migrate_legacy_entries migrate_all migrate_file
    remove_existing json_files_in is_json_in has_suffix lt64 sort_by
dotted_lost = (refl, refl)

abbrev above : Entry
above = record app { namespace = ".." }

abbrev above_codec : Codec Entry
above_codec = record { encode = λ e. ok (e.version ∷ []); decode = λ bytes. ok above }

-- An entry of the namespace ".." is written outside the folder of the entries, and not listed.
above_unlisted :
    (read_entry_file above_codec ".." "app"
        (put_entry_file above_codec sound above 18446744073709551615 empty_files).1
      ≡ ok above)
    × (list_entry_files above_codec
          (put_entry_file above_codec sound above 18446744073709551615 empty_files).1
        ≡ [])
unfolding put_entry_file read_entry_file load save write_file write_atomic write_temp rename_file
    temp_path get put_at delete same_path entry_path join enter_all enter split_slash escape_key
    escape_pair entry_guard list_entry_files load_below is_json_below is_below has_suffix lt64
    sort_by
above_unlisted = (refl, refl)
