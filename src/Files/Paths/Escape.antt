-- ===== src/Files/Paths/Escape.antt =====
-- Escaping loses nothing and leaves no slash; so different identities have different paths.
use Prim.Native.Char.{Char, code}
use text.Mathlib.TextEquality.{Char-path}
use go_build_cache.Prelude.{
  String, ◌≡◌, ◌≢◌, refl, sym, ap, ◌∙◌, Bool, true, false, not, ◌&&◌, Option, none, some, [], ◌∷◌,
  arith, ◌==◌, ==_iff, if◌then◌else◌, Bool-cases, Option-cases, inl, inr,
}
use go_build_cache.Files.Paths.{escape_pair, escape_key, split_slash}

-- A character that is not escaped is no `%`, and no slash.
escape_pair-none : (c : Char) → escape_pair c ≡ none → (c ≢ "%") × ((code c == b'/') ≡ false)
unfolding escape_pair
escape_pair-none c h = (λ e. absurd (cc (rw e at h)), ground (arith, h))

-- What was escaped, read back from the pair.
pair_char : Char × Char → Char
pair_char (a, b) =
    if code b == b'5'
    then "%"
    else if code b == b'F'
    then "/"
    else if code b == b'C'
    then "\\"
    else " "

some-eq : {A : Type 0} (x y : A) → ◌≡◌ {A = Option A} (some x) (some y) → x ≡ y
some-eq x y h = cc

char_at_code : (c d : Char) → (code c == code d) ≡ true → c ≡ d
char_at_code c d h = Char-path c d ((==_iff (code c) (code d)).0 h)

pair_char-escape_pair : (c : Char) (p : Char × Char) → escape_pair c ≡ some p → pair_char p ≡ c
unfolding escape_pair pair_char
pair_char-escape_pair c p h = elim (Bool-cases (code c == b'%')) [
  | inl y ↦ rw (← some-eq _ p (rw y at h)) (sym (char_at_code c "%" y))
  | inr n ↦ elim (Bool-cases (code c == b'/')) [
    | inl y ↦ rw (← some-eq _ p (rw (n, y) at h)) (sym (char_at_code c "/" y))
    | inr m ↦ elim (Bool-cases (code c == b'\\')) [
      | inl y ↦ rw (← some-eq _ p (rw (n, m, y) at h)) (sym (char_at_code c "\\" y))
      | inr k ↦ elim (Bool-cases (code c == b' ')) [
        | inl y ↦ rw (← some-eq _ p (rw (n, m, k, y) at h)) (sym (char_at_code c " " y))
        | inr j ↦ absurd (cc (rw (n, m, k, j) at h))
      ]
    ]
  ]
]

escape_cons_injective :
    (c d : Char) (s t : String)
    → escape_key (String.◌∷◌ c s) ≡ escape_key (String.◌∷◌ d t)
    → (c ≡ d) × (escape_key s ≡ escape_key t)
unfolding escape_key
escape_cons_injective c d s t h = elim (Option-cases (escape_pair c)) [
  | inl e ↦ elim (Option-cases (escape_pair d)) [
    | inl f ↦ let k = rw (e, f) at h in (cc k, cc k)
    | inr (q, f) ↦ let k = rw (e, f) at h in absurd ((escape_pair-none c e).0 (cc k))
  ]
  | inr (p, e) ↦ elim (Option-cases (escape_pair d)) [
    | inl f ↦ let k = rw (e, f) at h in absurd ((escape_pair-none d f).0 (cc k))
    | inr (q, f) ↦
        let k = rw (e, f) at h in
        (
          sym (pair_char-escape_pair c p e)
              ∙ ap pair_char (pair_equal p q (cc k) (cc k))
              ∙ pair_char-escape_pair d q f,
          cc k,
        )
  ]
]
  where
    pair_equal : (p q : Char × Char) → p.0 ≡ q.0 → p.1 ≡ q.1 → p ≡ q
    pair_equal p q a b = λ i. (a i, b i)

escape_cons_nonempty : (c : Char) (s : String) → escape_key (String.◌∷◌ c s) ≢ ""
unfolding escape_key
escape_cons_nonempty c s h = elim (Option-cases (escape_pair c)) [
  | inl e ↦ absurd (cc (rw e at h))
  | inr (p, e) ↦ absurd (cc (rw e at h))
]

-- Different texts are escaped to different texts.
pub escape_key-injective : (s t : String) → escape_key s ≡ escape_key t → s ≡ t
escape_key-injective String.[] String.[] h = refl
escape_key-injective String.[] (String.◌∷◌ d t) h =
    absurd (escape_cons_nonempty d t (sym h ∙ unfold escape_key in refl))
escape_key-injective (String.◌∷◌ c s) String.[] h =
    absurd (escape_cons_nonempty c s (h ∙ unfold escape_key in refl))
escape_key-injective (String.◌∷◌ c s) (String.◌∷◌ d t) h =
    let (a, b) = escape_cons_injective c d s t h in rw (a, escape_key-injective s t b) refl

-- A text without a slash.
unfoldable pub no_slash : String → Bool
no_slash String.[] = true
no_slash (String.◌∷◌ c s) = not (code c == b'/') && no_slash s

pair_no_slash :
    (c : Char) (p : Char × Char)
    → escape_pair c ≡ some p
    → ((code p.0 == b'/') ≡ false) × ((code p.1 == b'/') ≡ false)
unfolding escape_pair
pair_no_slash c p h = elim (Bool-cases (code c == b'%')) [
  | inl y ↦ rw (← some-eq _ p (rw y at h)) (refl, refl)
  | inr n ↦ elim (Bool-cases (code c == b'/')) [
    | inl y ↦ rw (← some-eq _ p (rw (n, y) at h)) (refl, refl)
    | inr m ↦ elim (Bool-cases (code c == b'\\')) [
      | inl y ↦ rw (← some-eq _ p (rw (n, m, y) at h)) (refl, refl)
      | inr k ↦ elim (Bool-cases (code c == b' ')) [
        | inl y ↦ rw (← some-eq _ p (rw (n, m, k, y) at h)) (refl, refl)
        | inr j ↦ absurd (cc (rw (n, m, k, j) at h))
      ]
    ]
  ]
]

pub no_slash-escape_key : (s : String) → no_slash (escape_key s) ≡ true
unfolding escape_key no_slash
no_slash-escape_key String.[] = refl
no_slash-escape_key (String.◌∷◌ c s) = elim (Option-cases (escape_pair c)) [
  | inl e ↦ rw (e, (escape_pair-none c e).1, no_slash-escape_key s) refl
  | inr (p, e) ↦ let (a, b) = pair_no_slash c p e in rw (e, a, b, no_slash-escape_key s) refl
]

pub split_slash-no_slash : (s : String) → no_slash s ≡ true → split_slash s ≡ s ∷ []
unfolding split_slash no_slash
split_slash-no_slash String.[] h = refl
split_slash-no_slash (String.◌∷◌ c s) h =
    let (a, b) = both (code c == b'/') (no_slash s) h in rw (a, split_slash-no_slash s b) refl
  where
    both : (x y : Bool) → (not x && y) ≡ true → (x ≡ false) × (y ≡ true)
    both x y h = ground (arith, h)
