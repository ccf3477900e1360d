-- ===== src/Cache/Pins/Create.antt =====
-- cache.go: Pin.
use Prim.Native.String.{◌++◌}
use go_build_cache.Prelude.{ℕ, ◌+◌, String, not, ◌&&◌, Option, none, some, ◌==◌, if◌then◌else◌}
use go_build_cache.Prelude.Exec.{Result, ok, err, Done, pure, lift, reject, ◌>>=◌, ◌>>◌}
use go_build_cache.Prelude.Int64.{add64}
use go_build_cache.Prelude.Maps.{string_eq}
use go_build_cache.Prelude.Text.{itoa}
use go_build_cache.Digest.{Digest, valid, equal, to_string}
use go_build_cache.Model.{Time, after, Entry, Pin, pin_active, action_pin}
use go_build_cache.Errors.{
  Error, not_found, entry_not_found, pin_conflict, no_entry, deadline_in_past, pin_digest_conflict,
  pin_version_conflict,
}
use go_build_cache.Store.Entries.{get_entry}
use go_build_cache.Store.Pins.{save_pin, get_pin}
use go_build_cache.Cache.{M, clock_now, query, write, norm_namespace}
use go_build_cache.Cache.Pins.Requests.{
  pin_ttl, opt_deadline_str, opt_ver_str, pin_fingerprint, lookup_pin_request, record_pin_request,
  or_replay,
}

pub record PinOptions : Type 0 where
  pub namespace : String
  pub key : String
  pub expected_digest : Digest
  pub deadline : Time
  pub ttl : ℕ
  pub expected_version : Option ℕ
  pub request_id : String

unfoldable pub requested_deadline : PinOptions → Time → Time
requested_deadline opts now =
    if not (opts.deadline == 0) then opts.deadline else now + pin_ttl opts.ttl

unfoldable pub pin_deadline : PinOptions → Time → Result Error Time
pin_deadline opts now =
    let d = requested_deadline opts now in
    if not (after d now)
    then err (pin_conflict (norm_namespace opts.namespace) opts.key deadline_in_past d)
    else ok d

-- Pin's view of the entry: a missing one is a conflict.
abbrev pub entry_to_pin : String → String → Time → Result Error Entry → Result Error Entry
entry_to_pin namespace key now (ok e) = ok e
entry_to_pin namespace key now (err entry_not_found) = err (pin_conflict namespace key no_entry 0)
entry_to_pin namespace key now (err e) = err e

-- The optional version condition of Pin, against the lease that is there.
abbrev pub pin_condition : String → String → Option ℕ → Result Error Pin → Result Error Done
pin_condition namespace key none cur = ok tt
pin_condition namespace key (some v) (ok cur) =
    if not (v == cur.version)
    then err (pin_version_conflict namespace key v cur.version (some cur.status))
    else ok tt
pin_condition namespace key (some v) (err e) =
    if not (v == 0) then err (pin_version_conflict namespace key v 0 none) else ok tt

-- One above the version of the lease that is there, whatever its status.
abbrev pub version_above : Result Error Pin → Result Error ℕ
version_above (ok prev) = ok (add64 prev.version 1)
version_above (err not_found) = ok 1
version_above (err e) = err e

-- The part of Pin behind the deadline and the request number.
unfoldable pub pin_entry : PinOptions → String → Time → Time → String → M Pin
pin_entry opts namespace now deadline fp = do
  entry ← query (λ m. entry_to_pin namespace opts.key now (get_entry namespace opts.key m))
  reject (valid opts.expected_digest && not (equal opts.expected_digest entry.digest))
      (pin_digest_conflict namespace opts.key opts.expected_digest entry.digest)
  query (λ m. pin_condition namespace opts.key opts.expected_version (get_pin namespace opts.key m))
  version ← query (λ m. version_above (get_pin namespace opts.key m))
  let pin : Pin = record {
    namespace = namespace;
    key = opts.key;
    version = version;
    entry_version = entry.version;
    digest = entry.digest;
    chunks = entry.chunks;
    deadline = deadline;
    status = pin_active;
    created_at = now;
    updated_at = now;
  }
  write (save_pin pin)
  record_pin_request opts.request_id action_pin namespace opts.key fp pin now
  pure pin

unfoldable pub pin_params : PinOptions → String
pin_params opts =
    "deadline="
    ++ opt_deadline_str opts.deadline
    ++ "|ttl="
    ++ itoa opts.ttl
    ++ "|digest="
    ++ to_string opts.expected_digest
    ++ "|ver="
    ++ opt_ver_str opts.expected_version

-- Cache.Pin
unfoldable pub pin : PinOptions → M Pin
pin opts = do
  let namespace = norm_namespace opts.namespace
  now ← clock_now
  deadline ← lift (pin_deadline opts now)
  let fp = pin_fingerprint action_pin namespace opts.key (pin_params opts)
  hit ← (λ c. (lookup_pin_request opts.request_id action_pin namespace opts.key fp c.pin_reqs, c))
  or_replay hit (pin_entry opts namespace now deadline fp)
