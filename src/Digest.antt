-- ===== src/Digest.antt =====
-- digest.go: content digests "algo:hex", parsing and validation.
pub mod RoundTrip
use Prim.Native.Char.{Char, code}
use Prim.Native.String
use Prim.Native.String.{len, ◌++◌}
use go_build_cache.Prelude.{
  ℕ, String, ◌≡◌, refl, Bool, true, false, not, ◌&&◌, ◌||◌, Option, none, some, leb, ◌==◌, str_eq,
  if◌then◌else◌,
}
use go_build_cache.Prelude.Exec.{Result, ok, err}

pub record Digest : Type 0 where
  pub algo : String
  pub hex : String

-- The errors of digest.go, by what their text carries.
pub data DigestError : Type 0 where
  malformed : String → DigestError
  wrong_length : ℕ → DigestError
  unsupported_algo : String → DigestError
  not_lower_hex : String → DigestError

-- Digest{}
abbrev pub no_digest : Digest
no_digest = record { algo = ""; hex = "" }

pub is_lower_hex : ℕ → Bool
is_lower_hex c = (leb b'0' c && leb c b'9') || (leb b'a' c && leb c b'f')

-- The loop over the characters of the hexadecimal part.
pub all_lower_hex : String → Bool
unfolding is_lower_hex
all_lower_hex String.[] = true
all_lower_hex (String.◌∷◌ c s) = is_lower_hex (code c) && all_lower_hex s

-- `none` is Go's nil error.
unfoldable pub validate_hex : String → String → Option DigestError
unfolding all_lower_hex
validate_hex algo hx =
    if not (str_eq algo "sha256")
    then some (unsupported_algo algo)
    else if not (len hx == 64)
    then some (wrong_length (len hx))
    else if all_lower_hex hx
    then none
    else some (not_lower_hex (algo ++ ":" ++ hx))

pub in_front : Char → Option (String × String) → Option (String × String)
in_front c none = none
in_front c (some (a, b)) = some (String.◌∷◌ c a, b)

-- One character of the search, with what the rest of the text gives.
pub cut_step : Char → String → Option (String × String) → Option (String × String)
unfolding in_front
cut_step c s rest = if code c == b':' then some ("", s) else in_front c rest

-- strings.Cut(s, ":")
pub cut_colon : String → Option (String × String)
unfolding cut_step
cut_colon String.[] = none
cut_colon (String.◌∷◌ c s) = cut_step c s (cut_colon s)

-- What follows once the text has been cut.
pub parse_cut : String → Option (String × String) → Result DigestError Digest
unfolding validate_hex
parse_cut s none = err (malformed s)
parse_cut s (some (algo, hex_part)) =
    if str_eq algo "" || str_eq hex_part ""
    then err (malformed s)
    else elim (validate_hex algo hex_part) [
      | some e ↦ err e
      | none ↦ ok (record { algo = algo; hex = hex_part })
    ]

unfoldable pub parse_digest : String → Result DigestError Digest
unfolding cut_colon parse_cut
parse_digest s = parse_cut s (cut_colon s)

unfoldable pub to_string : Digest → String
to_string d = if str_eq d.algo "" then "" else d.algo ++ ":" ++ d.hex

unfoldable pub valid : Digest → Bool
unfolding validate_hex
valid d =
    not (str_eq d.algo "") && (elim (validate_hex d.algo d.hex) [ none ↦ true | some _ ↦ false ])

-- Go's == on digests, field by field.
unfoldable pub equal : Digest → Digest → Bool
equal d o = str_eq d.algo o.algo && str_eq d.hex o.hex
