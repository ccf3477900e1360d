-- ===== src/Cache/Sessions/Sweep.antt =====
-- cache.go: the sweep of canceled and expired upload sessions.
use Prim.Native.Char.{nul}
use Prim.Native.String.{◌++◌}
use go_build_cache.Prelude.{
  ℕ, String, Bool, true, false, not, ◌&&◌, Option, none, some, List, [], ◌∷◌, if◌then◌else◌, str_eq,
}
use go_build_cache.Prelude.Exec.{ok}
use go_build_cache.Prelude.Maps.{Map, get, delete, string_eq}
use go_build_cache.Digest.{no_digest}
use go_build_cache.Model.{
  Time, after, Session, SessionStatus, session_open, session_completed, session_canceled, GcRecord,
  gc_session_swept,
}
use go_build_cache.Store.Audit.{append_audit}
use go_build_cache.Store.Sessions.{delete_session, list_sessions}
use go_build_cache.Cache.{Cache, M, next_reading, tick}

unfoldable pub idem_composite : String → String → String
idem_composite namespace key = namespace ++ String.◌∷◌ nul key

-- Cache.expired
abbrev pub expired : Session → Time → Bool
expired s now = not (after s.expires_at now)

abbrev pub is_open : SessionStatus → Bool
is_open session_open = true
is_open session_completed = false
is_open session_canceled = false

pub record SweptSession : Type 0 where
  pub id : String
  pub key : String
  pub status : SessionStatus
  pub reason : String

-- Why a sweep removes a session, if it does.
unfoldable pub sweep_reason : Time → Session → SessionStatus → Option String
sweep_reason now s session_canceled = some "canceled"
sweep_reason now s session_open = if expired s now then some "lease_expired" else none
sweep_reason now s session_completed = none

abbrev pub is_mapped : Option String → String → Bool
is_mapped none id = false
is_mapped (some other) id = str_eq other id

-- The idempotency map without a session that goes; a mapping to another session stays.
unfoldable pub forget : Session → Map String String → Map String String
forget s idem =
    let comp = idem_composite s.namespace s.idempotency_key in
    if not (str_eq s.idempotency_key "") && is_mapped (get comp idem) s.id
    then delete comp idem
    else idem

unfoldable pub session_record : Time → ℕ → Session → String → GcRecord
session_record now gen s reason = record {
  time = now;
  generation = gen;
  action = gc_session_swept;
  blob = no_digest;
  key = s.key;
  session_id = s.id;
  reason = reason;
  detail = "";
}

-- sweepSessionLocked
unfoldable pub sweep_session_locked : Session → String → ℕ → Cache → Cache
unfolding forget session_record
sweep_session_locked s reason gen c = record (tick c) {
  store = append_audit (session_record (next_reading c) gen s reason) (delete_session s.id c.store);
  idem = forget s c.idem;
}

-- The loop over the listed sessions.
unfoldable pub sweep_sessions : Time → ℕ → List Session → Cache → List SweptSession × Cache
sweep_sessions now gen [] c = ([], c)
sweep_sessions now gen (s ∷ ss) c = elim (sweep_reason now s s.status) [
  | none ↦ sweep_sessions now gen ss c
  | some reason ↦
      let rest = sweep_sessions now gen ss (sweep_session_locked s reason gen c) in
      (record { id = s.id; key = s.key; status = s.status; reason = reason } ∷ rest.0, rest.1)
]

-- Cache.SweepExpired
unfoldable pub sweep_expired : M (List SweptSession)
sweep_expired c =
    let r = sweep_sessions (next_reading c) 0 (list_sessions c.store) (tick c) in (ok r.0, r.1)
