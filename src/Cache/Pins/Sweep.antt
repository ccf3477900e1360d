-- ===== src/Cache/Pins/Sweep.antt =====
-- cache.go: the sweep of expired pins.
use Prim.Native.String.{◌++◌}
use go_build_cache.Prelude.{ℕ, Bool, not, ◌&&◌, List, [], ◌∷◌, if◌then◌else◌}
use go_build_cache.Prelude.Exec.{ok, ◌>>=◌}
use go_build_cache.Prelude.Int64.{add64}
use go_build_cache.Prelude.Maps.{string_eq}
use go_build_cache.Prelude.Text.{decimal}
use go_build_cache.Digest.{no_digest}
use go_build_cache.Model.{Time, after, Pin, pin_expired, is_pin_active, GcRecord, gc_pin_swept}
use go_build_cache.Store.{MemoryStore}
use go_build_cache.Store.Audit.{append_audit}
use go_build_cache.Store.Pins.{save_pin, list_pins}
use go_build_cache.Cache.{M, clock_now}

-- p.Status == PinActive && !p.Deadline.After(now)
unfoldable pub is_overdue : Time → Pin → Bool
is_overdue now p = is_pin_active p.status && not (after p.deadline now)

unfoldable pub expire : Time → Pin → Pin
expire now p = record p { version = add64 p.version 1; status = pin_expired; updated_at = now }

unfoldable pub sweep_record : Time → ℕ → Pin → GcRecord
sweep_record now gen p = record {
  time = now;
  generation = gen;
  action = gc_pin_swept;
  blob = no_digest;
  key = p.key;
  session_id = "";
  reason = "";
  detail = "namespace=" ++ p.namespace ++ " version=" ++ decimal p.version;
}

-- The loop of sweepExpiredPinsLocked over the listed pins.
unfoldable pub sweep_pins : Time → ℕ → List Pin → MemoryStore → List Pin × MemoryStore
unfolding is_overdue expire sweep_record
sweep_pins now gen [] m = ([], m)
sweep_pins now gen (p ∷ ps) m =
    let p' = expire now p in
    let swept = sweep_pins now gen ps (append_audit (sweep_record now gen p') (save_pin p' m)) in
    let skipped = sweep_pins now gen ps m in
    if is_overdue now p then (p' ∷ swept.0, swept.1) else skipped

-- sweepExpiredPinsLocked
unfoldable pub sweep_expired_pins_locked : Time → ℕ → M (List Pin)
sweep_expired_pins_locked now gen c =
    let r = sweep_pins now gen (list_pins c.store) c.store in (ok r.0, record c { store = r.1 })

-- Cache.SweepExpiredPins
unfoldable pub sweep_expired_pins : M (List Pin)
sweep_expired_pins = do now ← clock_now; sweep_expired_pins_locked now 0
