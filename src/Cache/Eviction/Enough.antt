-- ===== src/Cache/Eviction/Enough.antt =====
-- How the candidates of a plan are ordered, and how many they are.
use go_build_cache.Prelude.{
  ℕ, ◌+◌, ◌<◌, ◌≤◌, String, ◌≡◌, refl, ap, subst, true, false, List, [], ◌∷◌, ◌++◌, map, arith,
  eq_iff, keep, leb, Bool-cases, inl, inr, ◌⊎◌, In,
}
use go_build_cache.Prelude.Sorting.{sum_by, sum_by-sort_by, Ascending, sort_by-Ascending}
use go_build_cache.Prelude.Exec.{ok}
use go_build_cache.Prelude.Int64.{two63, add64_exact, le64_nonneg}
use go_build_cache.Prelude.Maps.{values, string_eq}
use go_build_cache.Model.{Time, Entry, Namespace, EvictionCandidate, EvictionDecision}
use go_build_cache.Store.{MemoryStore}
use go_build_cache.Store.Entries.{list_entries, entry_before}
use go_build_cache.Store.Invariant.{IsKeyed}
use go_build_cache.Store.Pins.{list_pins}
use go_build_cache.Cache.{Cache}
use go_build_cache.Cache.Eviction.Plan.{
  is_candidate, lru_before, snapshot, choose, lru_candidates, plan_eviction_locked, new_decision,
}
use go_build_cache.Cache.Eviction.Usage.{weight, bytes_in}
use go_build_cache.Cache.Eviction.Chosen.{
  MayGo, lru_candidates-MayGo, MayGo-lru_candidates, is_candidate_parts,
}

abbrev pub size_of : Entry → ℕ
size_of e = e.total_size

abbrev pub accessed : Entry → Time
accessed e = e.last_accessed_at

-- Each entry of the list is still wanted when those before it are counted.
abbrev pub Wanted : ℕ → ℕ → List Entry → Type 0
Wanted need sum [] = Unit {0}
Wanted need sum (e ∷ es) = (sum < need) × Wanted need (sum + e.total_size) es

-- A list of entries in two parts, the first taken, as far as it is wanted.
record Split (ns : String) (need sum : ℕ) (es : List Entry) : Type 0 where
  taken : List Entry
  left : List Entry
  whole : es ≡ taken ++ left
  chosen : choose ns need sum es ≡ map (snapshot ns) taken
  wanted : Wanted need sum taken
  enough : (need ≤ sum + sum_by size_of taken) ⊎ (left ≡ [])

Split-cons :
    (ns : String) (need sum : ℕ) (e : Entry) (es : List Entry)
    → need < two63
    → sum + e.total_size < two63
    → Split ns need (sum + e.total_size) es
    → Split ns need sum (e ∷ es)
unfolding choose
Split-cons ns need sum e es n h r =
    let exact = add64_exact sum e.total_size (omega arith) in
    let plain_test = le64_nonneg need sum n (omega arith) in
    elim (Bool-cases (leb need sum)) [
      | inl y ↦ record {
        taken = [];
        left = e ∷ es;
        whole = refl;
        chosen = rw (plain_test, y) refl;
        wanted = tt;
        enough = inl (ground arith);
      }
      | inr q ↦ record {
        taken = e ∷ r.taken;
        left = r.left;
        whole = ap (λ (xs : List Entry). e ∷ xs) r.whole;
        chosen = rw (plain_test, q, exact, r.chosen) refl;
        wanted = (ground arith, r.wanted);
        enough = elim r.enough [ inl b ↦ inl (omega arith) | inr b ↦ inr b ];
      }
    ]

choose-Split :
    (ns : String) (need sum : ℕ) (es : List Entry)
    → need < two63
    → sum + sum_by size_of es < two63
    → Split ns need sum es
unfolding choose
choose-Split ns need sum [] n h = record {
  taken = [];
  left = [];
  whole = refl;
  chosen = refl;
  wanted = tt;
  enough = inr refl;
}
choose-Split ns need sum (e ∷ es) n h =
    Split-cons ns need sum e es n (omega arith)
      (choose-Split ns need (sum + e.total_size) es n (omega arith))

lru_before-rises : (x y : Entry) → lru_before x y ≡ true → accessed x ≤ accessed y
unfolding lru_before
lru_before-rises x y h = ground arith

lru_before-falls : (x y : Entry) → lru_before x y ≡ false → accessed y ≤ accessed x
unfolding lru_before
lru_before-falls x y h = ground arith

In-left : {A : Type 0} (x : A) (xs ys : List A) → In x xs → In x (xs ++ ys)
In-left x [] ys h = elim h [ ]
In-left x (z ∷ xs) ys (inl q) = inl q
In-left x (z ∷ xs) ys (inr i) = inr (In-left x xs ys i)

In-right : {A : Type 0} (x : A) (xs ys : List A) → In x ys → In x (xs ++ ys)
In-right x [] ys h = h
In-right x (z ∷ xs) ys h = inr (In-right x xs ys h)

In-either : {A : Type 0} (x : A) (xs ys : List A) → In x (xs ++ ys) → In x xs ⊎ In x ys
In-either x [] ys h = inr h
In-either x (z ∷ xs) ys (inl q) = inl (inl q)
In-either x (z ∷ xs) ys (inr i) = elim (In-either x xs ys i) [ inl a ↦ inl (inr a) | inr b ↦ inr b ]

Ascending-split :
    (f : Entry → ℕ) (xs ys : List Entry) (x y : Entry)
    → Ascending f (xs ++ ys)
    → In x xs
    → In y ys
    → f x ≤ f y
Ascending-split f [] ys x y a i j = elim i [ ]
Ascending-split f (z ∷ xs) ys x y a (inl q) j = rw q (a.0 y (In-right y xs ys j))
Ascending-split f (z ∷ xs) ys x y a (inr i) j = Ascending-split f xs ys x y a.1 i j

module _ (ns exclude : String) (now : Time) (m : MemoryStore) where
  kept_sum :
      (es : List Entry)
      → sum_by size_of (keep (is_candidate ns exclude now (list_pins m)) es) ≤ sum_by (weight ns) es
  kept_sum [] = omega arith
  kept_sum (e ∷ es) =
      let ih = kept_sum es in
      elim (Bool-cases (is_candidate ns exclude now (list_pins m) e)) [
        | inl y ↦
            let (n, x, u) = is_candidate_parts ns exclude now m e y in
            rw (y, n, (eq_iff ns ns).1 refl) (omega arith)
        | inr q ↦ rw q (omega arith)
      ]

  lru_candidates-sum : sum_by size_of (lru_candidates ns exclude now m) ≤ bytes_in ns m
  unfolding lru_candidates list_entries
  lru_candidates-sum =
      let sorted = list_entries m in
      let a =
        sum_by-sort_by lru_before size_of
          (keep (is_candidate ns exclude now (list_pins m)) sorted) in
      let b = sum_by-sort_by entry_before (weight ns) (values m.entries) in
      let c = kept_sum sorted in omega arith

  lru_candidates-Ascending : Ascending accessed (lru_candidates ns exclude now m)
  unfolding lru_candidates
  lru_candidates-Ascending =
      sort_by-Ascending lru_before accessed lru_before-rises lru_before-falls
        (keep (is_candidate ns exclude now (list_pins m)) (list_entries m))

-- What a plan for `need` bytes should propose: entries that may go, of which none was used later than
-- one that is left, as many as `need` takes, or all.
pub record Proposes (ns exclude : String) (need : ℕ) (now : Time) (m : MemoryStore)
    (candidates : List EvictionCandidate) : Type 0 where
  pub taken : List Entry
  pub left : List Entry
  pub snapshots : candidates ≡ map (snapshot ns) taken
  pub may_go : (e : Entry) → In e taken → MayGo ns exclude now m e
  pub all_split :
      (e : Entry) → In e (list_entries m) → MayGo ns exclude now m e → In e taken ⊎ In e left
  pub oldest : (e x : Entry) → In e taken → In x left → e.last_accessed_at ≤ x.last_accessed_at
  pub wanted : Wanted need 0 taken
  pub enough : (need ≤ sum_by size_of taken) ⊎ (left ≡ [])

-- A plan proposes what it should: only entries of the namespace that may go, least recently used
-- first, each of them needed, and enough of them unless all that may go are proposed.
pub plan_eviction_locked-Proposes :
    (ns : Namespace) (need : ℕ) (reason exclude : String) (now : Time) (c : Cache)
    (d : EvictionDecision)
    → IsKeyed c.store
    → need < two63
    → bytes_in ns.name c.store < two63
    → (plan_eviction_locked ns need reason exclude now c).0 ≡ ok d
    → Proposes ns.name exclude need now c.store d.candidates
unfolding plan_eviction_locked new_decision
plan_eviction_locked-Proposes ns need reason exclude now c d v n b h =
    let m = c.store in
    let es = lru_candidates ns.name exclude now m in
    let fits = lru_candidates-sum ns.name exclude now m in
    let r = choose-Split ns.name need 0 es n (omega arith) in
    let ordered =
      subst (λ (xs : List Entry). Ascending accessed xs) r.whole
        (lru_candidates-Ascending ns.name exclude now m) in
    record {
      taken = r.taken;
      left = r.left;
      snapshots = cc (h, r.chosen);
      may_go = λ e i.
          lru_candidates-MayGo ns.name exclude now m e v (rw r.whole (In-left e r.taken r.left i));
      all_split = λ e i g. In-either e r.taken r.left (
          subst (λ (xs : List Entry). In e xs) r.whole
            (MayGo-lru_candidates ns.name exclude now m e i g));
      oldest = λ e x i j. Ascending-split accessed r.taken r.left e x ordered i j;
      wanted = r.wanted;
      enough = elim r.enough [ inl a ↦ inl (omega arith) | inr a ↦ inr a ];
    }
