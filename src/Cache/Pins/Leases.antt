-- ===== src/Cache/Pins/Leases.antt =====
-- cache.go: RenewPin and Unpin.
use Prim.Native.String.{◌++◌}
use go_build_cache.Prelude.{ℕ, ◌+◌, String, not, Option, none, some, ◌==◌, if◌then◌else◌}
use go_build_cache.Prelude.Exec.{Result, ok, err, Done, pure, lift, ◌>>=◌, ◌>>◌}
use go_build_cache.Prelude.Int64.{add64}
use go_build_cache.Prelude.Maps.{string_eq}
use go_build_cache.Prelude.Text.{itoa}
use go_build_cache.Model.{
  Time, after, Pin, pin_active, pin_released, active, action_renew, action_unpin,
}
use go_build_cache.Errors.{Error, not_found, pin_not_found, pin_not_active, pin_version_conflict}
use go_build_cache.Store.Pins.{save_pin, get_pin}
use go_build_cache.Cache.{M, clock_now, query, write, norm_namespace}
use go_build_cache.Cache.Pins.Requests.{
  pin_ttl, opt_ver_str, pin_fingerprint, lookup_pin_request, record_pin_request, or_replay,
}

-- What RenewPin and Unpin ask of the lease: that it is there, active, and of the expected version.
abbrev pub lease_found : String → String → Result Error Pin → Result Error Pin
lease_found namespace key (ok p) = ok p
lease_found namespace key (err not_found) = err (pin_not_found namespace key)
lease_found namespace key (err e) = err e

abbrev pub lease_condition : String → String → Option ℕ → Time → Pin → Result Error Done
lease_condition namespace key expected now p =
    if not (active p now) then err (pin_not_active namespace key p.status) else elim expected [
      | none ↦ ok tt
      | some v ↦
          if not (v == p.version)
          then err (pin_version_conflict namespace key v p.version (some p.status))
          else ok tt
    ]

-- Saves the changed lease and records the request.
abbrev pub save_and_record : String → String → String → String → String → Time → Pin → M Pin
save_and_record request_id action namespace key fp now p = do
  write (save_pin p)
  record_pin_request request_id action namespace key fp p now
  pure p

-- The common text of RenewPin and Unpin, which differ in how they change the lease.
unfoldable pub change_lease :
    String → String → String → String → String → Option ℕ → (Time → Pin → Pin) → M Pin
change_lease request_id action namespace key fp expected change = do
  now ← clock_now
  hit ← (λ c. (lookup_pin_request request_id action namespace key fp c.pin_reqs, c))
  or_replay hit (do
    p ← query (λ m. lease_found namespace key (get_pin namespace key m))
    lift (lease_condition namespace key expected now p)
    save_and_record request_id action namespace key fp now (change now p))

pub record RenewPinOptions : Type 0 where
  pub namespace : String
  pub key : String
  pub extend : ℕ
  pub expected_version : Option ℕ
  pub request_id : String

-- The later of the lease's deadline and the requested one.
unfoldable pub extended : ℕ → Time → Pin → Pin
extended ext now p = record p {
  version = add64 p.version 1;
  deadline = if after p.deadline (now + ext) then p.deadline else now + ext;
  status = pin_active;
  updated_at = now;
}

unfoldable pub renew_fingerprint : RenewPinOptions → String
renew_fingerprint opts =
    pin_fingerprint action_renew (norm_namespace opts.namespace) opts.key
      ("extend=" ++ itoa (pin_ttl opts.extend) ++ "|ver=" ++ opt_ver_str opts.expected_version)

-- Cache.RenewPin
unfoldable pub renew_pin : RenewPinOptions → M Pin
unfolding change_lease
renew_pin opts =
    change_lease opts.request_id action_renew (norm_namespace opts.namespace) opts.key
      (renew_fingerprint opts) opts.expected_version (extended (pin_ttl opts.extend))

pub record UnpinOptions : Type 0 where
  pub namespace : String
  pub key : String
  pub expected_version : Option ℕ
  pub request_id : String

unfoldable pub released : Time → Pin → Pin
released now p = record p { version = add64 p.version 1; status = pin_released; updated_at = now }

unfoldable pub unpin_fingerprint : UnpinOptions → String
unpin_fingerprint opts =
    pin_fingerprint action_unpin (norm_namespace opts.namespace) opts.key
      ("ver=" ++ opt_ver_str opts.expected_version)

-- Cache.Unpin
unfoldable pub unpin : UnpinOptions → M Pin
unfolding change_lease
unpin opts =
    change_lease opts.request_id action_unpin (norm_namespace opts.namespace) opts.key
      (unpin_fingerprint opts) opts.expected_version released
