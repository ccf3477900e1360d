-- ===== src/Cache/Eviction/Quota.antt =====
-- cache.go: the quota check before a publication.
use go_build_cache.Prelude.{ℕ, String, Option, none, some, if◌then◌else◌}
use go_build_cache.Prelude.Exec.{ok, pure, reject, ◌>>=◌, ◌>>◌}
use go_build_cache.Prelude.Int64.{add64, sub64, le64, lt64}
use go_build_cache.Model.{Time, Namespace, EvictionDecision}
use go_build_cache.Errors.{quota_exceeded}
use go_build_cache.Cache.{M}
use go_build_cache.Cache.Eviction.Plan.{namespace_used, plan_eviction_locked}
use go_build_cache.Cache.Eviction.Commit.{commit_eviction_locked}

-- The part of enforceQuotaLocked in which something has to go.
unfoldable pub evict_for : Namespace → String → ℕ → ℕ → Time → M (Option EvictionDecision)
evict_for ns exclude_key used need now = do
  plan ← plan_eviction_locked ns need "quota_on_publish" exclude_key now
  decision ← commit_eviction_locked plan now
  reject (lt64 decision.freed_bytes need)
      (quota_exceeded ns.name ns.max_bytes used need decision.freed_bytes)
  pure (some decision)

-- enforceQuotaLocked
unfoldable pub enforce_quota : Namespace → String → ℕ → ℕ → Time → M (Option EvictionDecision)
enforce_quota ns exclude_key old_size new_size now c =
    let used = namespace_used ns.name c.store in
    let projected = add64 (sub64 used old_size) new_size in
    if le64 ns.max_bytes 0
    then (ok none, c)
    else if le64 projected ns.max_bytes
    then (ok none, c)
    else evict_for ns exclude_key used (sub64 projected ns.max_bytes) now c
