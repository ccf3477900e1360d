-- ===== src/Cache/Startup.antt =====
-- cache.go: New, which restores what the cache keeps outside its store, makes the default namespace,
-- and resumes the promotions whose commit was interrupted.
use go_build_cache.Prelude.{ℕ, String, not, ◌&&◌, List, [], ◌∷◌, ltb, str_eq, if◌then◌else◌}
use go_build_cache.Prelude.Exec.{Result, ok, err, Done, pure, raise, modify, ◌>>=◌, ◌>>◌}
use go_build_cache.Prelude.Int64.{le64}
use go_build_cache.Prelude.Maps.{Map, put, string_eq}
use go_build_cache.Ids.{eviction_seq_of, promotion_seq_of}
use go_build_cache.Model.{Time, Session, Namespace, PinRequest, default_namespace}
use go_build_cache.Errors.{Error, not_found}
use go_build_cache.Store.{MemoryStore}
use go_build_cache.Store.Audit.{list_audit}
use go_build_cache.Store.Decisions.{list_decisions}
use go_build_cache.Store.Pins.{list_pin_requests}
use go_build_cache.Store.Promotions.{list_promotions}
use go_build_cache.Store.Sessions.{list_sessions, get_namespace, save_namespace}
use go_build_cache.Cache.{Cache, M, clock_now, write}
use go_build_cache.Cache.Sessions.Sweep.{idem_composite, is_open}
use go_build_cache.Cache.Promotions.Commit.{resume_promotion_txns}

unfoldable pub idem_from : List Session → Map String String → Map String String
idem_from [] idem = idem
idem_from (s ∷ ss) idem = idem_from ss (
    if not (str_eq s.idempotency_key "") && is_open s.status
    then put (idem_composite s.namespace s.idempotency_key) s.id idem
    else idem)

unfoldable pub pin_reqs_from : List PinRequest → Map String PinRequest → Map String PinRequest
pin_reqs_from [] reqs = reqs
pin_reqs_from (r ∷ rs) reqs = pin_reqs_from rs (put r.request_id r reqs)

-- The loops that raise a counter to the highest number that they meet.
unfoldable pub highest {ℓ} : {A : Type ℓ} → (A → ℕ) → ℕ → List A → ℕ
highest f n [] = n
highest f n (x ∷ xs) = highest f (if ltb n (f x) then f x else n) xs

unfoldable pub restore_counters : Cache → Cache
restore_counters c = record c {
  idem = idem_from (list_sessions c.store) c.idem;
  gc_gen = highest (λ r. r.generation) c.gc_gen (list_audit c.store);
  pin_reqs = pin_reqs_from (list_pin_requests c.store) c.pin_reqs;
  evict_seq = highest (λ d. eviction_seq_of d.id) c.evict_seq (list_decisions c.store);
  promo_seq = highest (λ p. promotion_seq_of p.id) c.promo_seq (list_promotions c.store);
}

abbrev pub make_default : Result Error Namespace → M Done
make_default (ok ns) = pure tt
make_default (err not_found) = do
  now ← clock_now
  write (
      save_namespace
        (record { name = default_namespace; max_bytes = 0; created_at = now; updated_at = now }))
make_default (err e) = raise e

unfoldable pub ensure_default : M Done
ensure_default c = make_default (get_namespace default_namespace c.store) c

-- DefaultSessionTTL, 15 minutes in nanoseconds
abbrev pub default_session_ttl : ℕ
default_session_ttl = 900000000000

unfoldable pub empty_cache : MemoryStore → (ℕ → Time) → ℕ → Cache
empty_cache m readings ttl = record {
  store = m;
  ttl = if le64 ttl 0 then default_session_ttl else ttl;
  idem = [];
  pin_reqs = [];
  gc_gen = 0;
  evict_seq = 0;
  promo_seq = 0;
  readings = readings;
  reads = 0;
}

-- The text of a time, which Go's library formats, is a parameter.
module _ (format_time : Time → String) where
  -- restoreIndex
  unfoldable pub restore_index : M Done
  restore_index = do modify restore_counters; ensure_default; resume_promotion_txns format_time

  -- New, for a store and a clock that are there. The cache comes back beside an error too, since its
  -- store may have been written.
  unfoldable pub new : MemoryStore → (ℕ → Time) → ℕ → Result Error Done × Cache
  new m readings ttl = restore_index (empty_cache m readings ttl)
