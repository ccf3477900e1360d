-- ===== src/Ids.antt =====
-- cache.go and promotion.go: decision identifiers "evict-%012d" and "promo-%012d", and the sequence
-- numbers read back from them at start-up.
pub mod RoundTrip
use Prim.Native.Char.{code}
use Prim.Native.String
use Prim.Native.String.{len, slice, ◌++◌}
use go_build_cache.Prelude.{
  ℕ, ◌+◌, ◌-◌, ◌*◌, ◌%◌, String, Bool, not, ◌||◌, ltb, leb, str_eq, if◌then◌else◌,
}
use go_build_cache.Prelude.Int64.{two64}
use go_build_cache.Prelude.Text.{padded12}

abbrev pub evict_prefix : String
evict_prefix = "evict-"

abbrev pub promo_prefix : String
promo_prefix = "promo-"

-- The loop over the characters behind the prefix; `n` is a uint64.
pub digits_value : ℕ → String → ℕ
digits_value n String.[] = n
digits_value n (String.◌∷◌ ch s) =
    let rest = digits_value ((n * 10 + (code ch - b'0')) % two64) s in
    if ltb (code ch) b'0' || ltb b'9' (code ch) then 0 else rest

-- The common text of evictionSeqOf and promotionSeqOf.
pub seq_of : String → String → ℕ
unfolding digits_value
seq_of prefix id =
    if leb (len id) (len prefix) || not (str_eq (slice id 0 (len prefix)) prefix)
    then 0
    else digits_value 0 (slice id (len prefix) (len id))

unfoldable pub eviction_seq_of : String → ℕ
unfolding seq_of
eviction_seq_of id = seq_of evict_prefix id

unfoldable pub promotion_seq_of : String → ℕ
unfolding seq_of
promotion_seq_of id = seq_of promo_prefix id

-- fmt.Sprintf("evict-%012d", seq)
unfoldable pub eviction_id : ℕ → String
eviction_id seq = evict_prefix ++ padded12 seq

-- fmt.Sprintf("promo-%012d", seq)
unfoldable pub promotion_id : ℕ → String
promotion_id seq = promo_prefix ++ padded12 seq
