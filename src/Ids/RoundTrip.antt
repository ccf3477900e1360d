-- ===== src/Ids/RoundTrip.antt =====
-- The sequence number of a decision survives its identifier.
use Prim.Native.Char.{Char}
use Prim.Native.Nat.{zero, suc}
use Prim.Native.String.len
use Prim.Native.String.{len, count, ◌++◌}
use text.Mathlib.TextLemmas.{nil-append, cons-append}
use text.Mathlib.TextPositions.{
  len-append, slice-append_left, slice-append_right, eq_refl, len_utf8-pos,
}
use go_build_cache.Prelude.{
  ℕ, ◌+◌, ◌-◌, ◌*◌, ◌%◌, ◌/◌, ◌<◌, ◌≤◌, String, ◌≡◌, refl, ap, ◌∙◌, false, ◌||◌, arith, ltb, leb,
  ◌==◌, Bool-cases, inl, inr,
}
use go_build_cache.Prelude.Int64.{two64}
use go_build_cache.Prelude.Text.{digit, code-digit, decimal_onto, decimal, zeros, padded12}
use go_build_cache.Ids.{
  evict_prefix, promo_prefix, digits_value, seq_of, eviction_seq_of, promotion_seq_of, eviction_id,
  promotion_id,
}

digit_in_range : (d : ℕ) → d < 10 → (ltb (48 + d) 48 || ltb 57 (48 + d)) ≡ false
digit_in_range d h = ground arith

-- One digit read.
digits_value-digit :
    (n d : ℕ) (s : String)
    → d < 10
    → digits_value n (String.◌∷◌ (digit d) s) ≡ digits_value ((n * 10 + d) % two64) s
unfolding digits_value
digits_value-digit n d s h =
    rw (code-digit d h, digit_in_range d h)
      (ap (λ (k : ℕ). digits_value ((n * 10 + k) % two64) s) (omega arith))

-- Reading the digits that were put in front of a text gives the number, and goes on behind them.
digits_value-decimal_onto :
    (fuel n : ℕ) (s : String)
    → n < fuel
    → n < two64
    → digits_value 0 (decimal_onto fuel n s) ≡ digits_value n s
unfolding decimal_onto
digits_value-decimal_onto zero n s h k = absurd (omega arith)
digits_value-decimal_onto (suc fuel) n s h k = elim (Bool-cases (n / 10 == 0)) [
  | inl done ↦ rw done (
      digits_value-digit 0 (n % 10) s (omega arith)
      ∙ ap (λ (m : ℕ). digits_value m s) (ground (arith, done)))
  | inr more ↦ rw more (
      digits_value-decimal_onto fuel (n / 10) (String.◌∷◌ (digit (n % 10)) s) (ground (arith, more))
        (omega arith)
      ∙ digits_value-digit (n / 10) (n % 10) s (omega arith)
      ∙ ap (λ (m : ℕ). digits_value m s) (omega arith))
]

digits_value-zeros : (k : ℕ) (s : String) → digits_value 0 (zeros k ++ s) ≡ digits_value 0 s
unfolding zeros digit
digits_value-zeros zero s = rw nil-append refl
digits_value-zeros (suc k) s =
    rw cons-append (digits_value-digit 0 0 (zeros k ++ s) (omega arith) ∙ digits_value-zeros k s)

digits_value-padded12 : (n : ℕ) → n < two64 → digits_value 0 (padded12 n) ≡ n
unfolding padded12 decimal digits_value
digits_value-padded12 n h =
    digits_value-zeros (12 - count (decimal n)) (decimal n)
    ∙ digits_value-decimal_onto (suc n) n String.[] (omega arith) h

len-cons : (c : Char) (s : String) → len s < len (String.◌∷◌ c s)
len-cons c s = let (k, e) = len_utf8-pos c in rw len.cons (omega (arith, e))

len-le-decimal_onto : (fuel n : ℕ) (s : String) → len s ≤ len (decimal_onto fuel n s)
unfolding decimal_onto
len-le-decimal_onto zero n s = omega arith
len-le-decimal_onto (suc fuel) n s = elim (Bool-cases (n / 10 == 0)) [
  | inl done ↦ rw done (omega (arith, len-cons (digit (n % 10)) s))
  | inr more ↦ rw more (
      omega (
        arith,
        len-cons (digit (n % 10)) s,
        len-le-decimal_onto fuel (n / 10) (String.◌∷◌ (digit (n % 10)) s),
      ))
]

-- A number has at least one digit.
len-decimal_pos : (n : ℕ) → 0 < len (decimal n)
unfolding decimal decimal_onto
len-decimal_pos n = elim (Bool-cases (n / 10 == 0)) [
  | inl done ↦ rw done (omega (arith, len-cons (digit (n % 10)) String.[]))
  | inr more ↦ rw more (
      omega (
        arith,
        len-cons (digit (n % 10)) String.[],
        len-le-decimal_onto n (n / 10) (String.◌∷◌ (digit (n % 10)) String.[]),
      ))
]

len-padded12_pos : (n : ℕ) → 0 < len (padded12 n)
unfolding padded12
len-padded12_pos n =
    rw (len-append (zeros (12 - count (decimal n))) (decimal n)) (omega (arith, len-decimal_pos n))

leb-add : (a b : ℕ) → 0 < b → leb (a + b) a ≡ false
leb-add a b h = ground arith

seq_of-append : (prefix s : String) → 0 < len s → seq_of prefix (prefix ++ s) ≡ digits_value 0 s
unfolding seq_of
seq_of-append prefix s h = rw (
  slice-append_left prefix s,
  len-append prefix s,
  slice-append_right prefix s,
  eq_refl prefix,
  leb-add (len prefix) (len s) h,
)

-- The number read back from the identifier of an eviction decision is the one it was made from.
pub eviction_seq_of-eviction_id : (n : ℕ) → n < two64 → eviction_seq_of (eviction_id n) ≡ n
unfolding eviction_seq_of eviction_id
eviction_seq_of-eviction_id n h =
    seq_of-append evict_prefix (padded12 n) (len-padded12_pos n) ∙ digits_value-padded12 n h

-- The same for promotions.
pub promotion_seq_of-promotion_id : (n : ℕ) → n < two64 → promotion_seq_of (promotion_id n) ≡ n
unfolding promotion_seq_of promotion_id
promotion_seq_of-promotion_id n h =
    seq_of-append promo_prefix (padded12 n) (len-padded12_pos n) ∙ digits_value-padded12 n h
