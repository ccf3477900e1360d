-- ===== src/Digest/RoundTrip.antt =====
-- digest.go: what is printed parses back, and what parses was printed so.
use Prim.Native.Char.{Char, code}
use Prim.Native.String.{len, ◌++◌}
use text.Mathlib.TextEquality.{Char-path}
use text.Mathlib.TextLemmas.{nil-append, cons-append}
use go_build_cache.Prelude.{
  String, ◌≡◌, refl, sym, ap, subst, Bool, true, false, not, ◌&&◌, Option, none, some, arith, ◌==◌,
  str_eq, eq_iff, Bool-cases, Option-cases, inl, inr,
}
use go_build_cache.Prelude.Exec.{ok}
use go_build_cache.Digest.{
  Digest, validate_hex, cut_step, cut_colon, parse_cut, parse_digest, to_string, valid,
}

colon-append : (s : String) → ":" ++ s ≡ String.◌∷◌ ":" s
colon-append s = rw cons-append (rw nil-append)

-- A colon is the only character with its number.
is_colon : (c : Char) → code c ≡ b':' → c ≡ ":"
is_colon c h = Char-path c ":" h

cut_step-append :
    (c : Char) (s a b : String) (r : Option (String × String))
    → ((x y : String) → r ≡ some (x, y) → x ++ (":" ++ y) ≡ s)
    → cut_step c s r ≡ some (a, b)
    → a ++ (":" ++ b) ≡ String.◌∷◌ c s
unfolding cut_step
cut_step-append c s a b none ih h = elim (Bool-cases (code c == b':')) [
  | inl e ↦ ground (arith, is_colon c, nil-append (":" ++ s), colon-append s)
  | inr e ↦ ground arith
]
cut_step-append c s a b (some (x, y)) ih h = elim (Bool-cases (code c == b':')) [
  | inl e ↦ ground (arith, is_colon c, nil-append (":" ++ s), colon-append s)
  | inr e ↦ ground (arith, ih x y refl, cons-append c x (":" ++ y))
]

-- What `cut_colon` finds, put together again, is the text.
cut_colon-append : (s a b : String) → cut_colon s ≡ some (a, b) → a ++ (":" ++ b) ≡ s
unfolding cut_colon
cut_colon-append String.[] a b h = cc
cut_colon-append (String.◌∷◌ c s) a b h =
    cut_step-append c s a b (cut_colon s) (cut_colon-append s) h

no_colon : String → Bool
no_colon String.[] = true
no_colon (String.◌∷◌ c s) = not (code c == b':') && no_colon s

cut_colon-no_colon : (a b : String) → no_colon a ≡ true → cut_colon (a ++ (":" ++ b)) ≡ some (a, b)
unfolding cut_colon no_colon
cut_colon-no_colon String.[] b h = rw (nil-append, colon-append)
cut_colon-no_colon (String.◌∷◌ c a) b h = rw cons-append (ground (arith, cut_colon-no_colon a b))

len-empty : (s : String) → str_eq s "" ≡ true → len s ≡ 0
len-empty s e = ap len ((eq_iff s "").0 e)

valid_parts :
    (d : Digest)
    → valid d ≡ true
    → (d.algo ≡ "sha256") × (validate_hex d.algo d.hex ≡ none) × (str_eq d.hex "" ≡ false)
unfolding valid validate_hex
valid_parts d h = ground (arith, eq_iff d.algo "sha256", len-empty d.hex)

abbrev sha256 : String → Digest
sha256 hx = record { algo = "sha256"; hex = hx }

parse_digest-sha256 :
    (hx : String)
    → validate_hex "sha256" hx ≡ none
    → str_eq hx "" ≡ false
    → parse_digest (to_string (sha256 hx)) ≡ ok (sha256 hx)
unfolding parse_digest to_string no_colon
parse_digest-sha256 hx p q = rw (cut_colon-no_colon "sha256" hx refl, q) (ground (arith, p, q))

-- A valid digest printed and parsed comes back.
pub parse_digest-to_string : (d : Digest) → valid d ≡ true → parse_digest (to_string d) ≡ ok d
parse_digest-to_string d h =
    let (p, q, r) = valid_parts d h in
    subst (λ (x : Digest). parse_digest (to_string x) ≡ ok x)
      (λ i. record { algo = sym p i; hex = d.hex })
      (parse_digest-sha256 d.hex (subst (λ (a : String). validate_hex a d.hex ≡ none) p q) r)

parse_cut_parts :
    (s a b : String) (d : Digest)
    → parse_cut s (some (a, b)) ≡ ok d
    → (d.algo ≡ a) × (d.hex ≡ b) × (str_eq a "" ≡ false) × (validate_hex a b ≡ none)
unfolding parse_cut
parse_cut_parts s a b d h = ground arith

-- What parses is valid, and prints as the text that was parsed.
pub to_string-parse_digest :
    (s : String) (d : Digest) → parse_digest s ≡ ok d → (to_string d ≡ s) × (valid d ≡ true)
unfolding parse_digest
to_string-parse_digest s d h = elim (Option-cases (cut_colon s)) [
  | inl e ↦ unfold parse_cut in ground arith
  | inr (ab, e) ↦
      let (p, q, r, v) = parse_cut_parts s ab.0 ab.1 d (rw e at h) in
      (
        unfold to_string in ground (arith, cut_colon-append s ab.0 ab.1 e),
        unfold valid in ground arith,
      )
]
