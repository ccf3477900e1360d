-- ===== src/Cache/Pins/Requests.antt =====
-- cache.go: the request numbers of pin calls, their fingerprints, and the default lease.
use Prim.Native.String.{◌++◌}
use go_build_cache.Prelude.{
  ℕ, ◌*◌, ◌^◌, String, ◌&&◌, Option, none, some, ◌==◌, str_eq, if◌then◌else◌,
}
use go_build_cache.Prelude.Exec.{Result, ok, err, Done}
use go_build_cache.Prelude.Int64.{le64}
use go_build_cache.Prelude.Maps.{Map, get, put, string_eq}
use go_build_cache.Prelude.Text.{itoa}
use go_build_cache.Model.{Time, Pin, PinRequest}
use go_build_cache.Errors.{Error, pin_request_conflict}
use go_build_cache.Store.Pins.{save_pin_request}
use go_build_cache.Clock.{unix_nano}
use go_build_cache.Cache.{M}

-- DefaultPinTTL, one hour
abbrev pub default_pin_ttl : ℕ
default_pin_ttl = 3600 * 10 ^ 9

-- `if ttl <= 0 { ttl = DefaultPinTTL }`; durations are patterns of int64 nanoseconds.
unfoldable pub pin_ttl : ℕ → ℕ
pin_ttl ttl = if le64 ttl 0 then default_pin_ttl else ttl

unfoldable pub opt_deadline_str : Time → String
unfolding unix_nano
opt_deadline_str t = if t == 0 then "-" else itoa (unix_nano t)

unfoldable pub opt_ver_str : Option ℕ → String
opt_ver_str none = "-"
opt_ver_str (some v) = itoa v

unfoldable pub pin_fingerprint : String → String → String → String → String
pin_fingerprint action namespace key params =
    action ++ "|" ++ namespace ++ "|" ++ key ++ "|" ++ params

-- The record of an earlier call answers the same call, and refuses any other.
unfoldable pub recorded :
    String → String → String → String → String → Option PinRequest → Result Error (Option Pin)
recorded request_id action namespace key fingerprint none = ok none
recorded request_id action namespace key fingerprint (some rec) =
    if str_eq rec.action action
      && str_eq rec.namespace namespace
      && str_eq rec.key key
      && str_eq rec.fingerprint fingerprint
    then ok (some rec.result)
    else err (pin_request_conflict request_id)

unfoldable pub lookup_pin_request :
    String → String → String → String → String → Map String PinRequest → Result Error (Option Pin)
unfolding recorded
lookup_pin_request request_id action namespace key fingerprint reqs =
    if str_eq request_id ""
    then ok none
    else recorded request_id action namespace key fingerprint (get request_id reqs)

abbrev pub request_record : String → String → String → String → String → Pin → Time → PinRequest
request_record request_id action namespace key fingerprint result now = record {
  request_id = request_id;
  namespace = namespace;
  key = key;
  action = action;
  fingerprint = fingerprint;
  result = result;
  created_at = now;
}

unfoldable pub record_pin_request : String → String → String → String → String → Pin → Time → M Done
record_pin_request request_id action namespace key fingerprint result now c =
    let rec = request_record request_id action namespace key fingerprint result now in
    if str_eq request_id "" then (ok tt, c) else (
      ok tt,
      record c { store = save_pin_request rec c.store; pin_reqs = put request_id rec c.pin_reqs },
    )

-- `else if p != nil { return p, nil }`
abbrev pub or_replay : Option Pin → M Pin → M Pin
or_replay (some p) m c = (ok p, c)
or_replay none m c = m c
