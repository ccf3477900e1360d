-- ===== src/Prelude/Text.antt =====
-- What the program uses of Go's strings: order, decimal numbers, hexadecimal, zero padding.
use Prim.Native.Char.{Char, code}
use Prim.Native.Nat.{ℕ, zero, suc, ◌+◌, ◌-◌, ◌/◌, ◌%◌, ◌^◌, ◌<◌}
use Prim.Native.String.{String, [], ◌∷◌, ◌++◌, compare, count}
use mathlib.Core.Bool.{Bool}
use mathlib.Core.Path.{◌≡◌, refl}
use native.Mathlib.Omega.{arith}
use text.Mathlib.Text.{is_lt}
use package.go_build_cache.Prelude.Int64.{two64, two63}
use package.go_build_cache.Prelude.Tests.{ltb, ◌==◌, if◌then◌else◌}

-- Go's `<` on strings: the order of their bytes.
abbrev pub str_lt : String → String → Bool
str_lt s t = is_lt (compare s t)

-- The character of a digit; digits are below 10.
unfoldable pub digit : ℕ → Char
digit zero = "0"
digit (suc zero) = "1"
digit (suc (suc zero)) = "2"
digit (suc (suc (suc zero))) = "3"
digit (suc (suc (suc (suc zero)))) = "4"
digit (suc (suc (suc (suc (suc zero))))) = "5"
digit (suc (suc (suc (suc (suc (suc zero)))))) = "6"
digit (suc (suc (suc (suc (suc (suc (suc zero))))))) = "7"
digit (suc (suc (suc (suc (suc (suc (suc (suc zero)))))))) = "8"
digit _ = "9"

pub code-digit : (d : ℕ) → d < 10 → code (digit d) ≡ 48 + d
unfolding digit
code-digit zero h = refl
code-digit (suc zero) h = refl
code-digit (suc (suc zero)) h = refl
code-digit (suc (suc (suc zero))) h = refl
code-digit (suc (suc (suc (suc zero)))) h = refl
code-digit (suc (suc (suc (suc (suc zero))))) h = refl
code-digit (suc (suc (suc (suc (suc (suc zero)))))) h = refl
code-digit (suc (suc (suc (suc (suc (suc (suc zero))))))) h = refl
code-digit (suc (suc (suc (suc (suc (suc (suc (suc zero)))))))) h = refl
code-digit (suc (suc (suc (suc (suc (suc (suc (suc (suc zero))))))))) h = refl
code-digit (suc (suc (suc (suc (suc (suc (suc (suc (suc (suc k)))))))))) h = absurd (omega arith)

-- The digits of `n` in front of a text, the last one first; the fuel passes `n`.
unfoldable pub decimal_onto : ℕ → ℕ → String → String
unfolding digit
decimal_onto zero n rest = rest
decimal_onto (suc fuel) n rest =
    let more = decimal_onto fuel (n / 10) (digit (n % 10) ∷ rest) in
    if n / 10 == 0 then digit (n % 10) ∷ rest else more

-- strconv.FormatUint(n, 10)
unfoldable pub decimal : ℕ → String
unfolding decimal_onto
decimal n = decimal_onto (suc n) n []

-- strconv.FormatInt(v, 10) of the pattern of an int64
unfoldable pub itoa : ℕ → String
unfolding decimal
itoa v = if ltb v two63 then decimal v else "-" ++ decimal (two64 - v)

unfoldable pub zeros : ℕ → String
zeros zero = []
zeros (suc n) = "0" ∷ zeros n

-- %012d
unfoldable pub padded12 : ℕ → String
unfolding decimal zeros
padded12 n = zeros (12 - count (decimal n)) ++ decimal n

itoa_negative : itoa (2 ^ 64 - 15) ≡ "-15"
unfolding itoa
itoa_negative = refl

padded12_seven : padded12 1207 ≡ "000000001207"
unfolding padded12
padded12_seven = refl
