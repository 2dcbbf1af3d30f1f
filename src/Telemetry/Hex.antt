-- ===== src/Telemetry/Hex.antt =====
-- `{:016x}`: a 64-bit number in sixteen hexadecimal digits, and what the digits say.
use Prim.Native.Char.{Char, code, nul}
use mathlib.Core.Path.{subst}
use sentiric_b2bua_service.Prelude.{
  ℕ, zero, suc, ◌+◌, ◌-◌, ◌*◌, ◌/◌, ◌%◌, ◌^◌, ◌<◌, String, ◌≡◌, refl, ◌∙◌, ap, arith, ltb, Bool,
  true, false, ◌&&◌, Bool-cases, inl, inr, ◌=ℕ◌, if◌then◌else◌,
}

char_at : ℕ → String → Char
char_at n String.[] = nul
char_at zero (String.◌∷◌ c s) = c
char_at (suc n) (String.◌∷◌ c s) = char_at n s

hex_digit : ℕ → Char
unfolding char_at
hex_digit d = char_at d "0123456789abcdef"

-- The last `count` hexadecimal digits of `n`, before `tail`.
hex_before : (count n : ℕ) → String → String
unfolding hex_digit
hex_before zero n tail = tail
hex_before (suc count) n tail = hex_before count (n / 16) (String.◌∷◌ (hex_digit (n % 16)) tail)

-- format!("{:016x}", n) of a `u64`
unfoldable pub hex16 : ℕ → String
unfolding hex_before
hex16 n = hex_before 16 n ""

digit_value : Char → ℕ
digit_value c = if ltb (code c) 58 then code c - 48 else code c - 87

-- The number that hexadecimal digits say, behind those that said `n`.
unhex_from : ℕ → String → ℕ
unfolding digit_value
unhex_from n String.[] = n
unhex_from n (String.◌∷◌ c s) = unhex_from (n * 16 + digit_value c) s

pub unhex : String → ℕ
unfolding unhex_from
unhex s = unhex_from 0 s

-- Whether each number below `n` is the value of its digit.
all_read : ℕ → Bool
unfolding digit_value hex_digit
all_read zero = true
all_read (suc n) = digit_value (hex_digit n) =ℕ n && all_read n

the_last : (n d : ℕ) → d < suc n → ltb d n ≡ false → n ≡ d
the_last n d h above = ground arith

all_read-value : (n d : ℕ) → d < n → all_read n ≡ true → digit_value (hex_digit d) ≡ d
unfolding all_read
all_read-value zero d h e = absurd (omega arith)
all_read-value (suc n) d h e = elim (Bool-cases (ltb d n)) [
  | inl below ↦ all_read-value n d (ground (arith, below)) (ground (arith, e))
  | inr above ↦
      subst (λ m. digit_value (hex_digit m) ≡ m) (the_last n d h above) (ground (arith, e))
]

digit_value-hex : (d : ℕ) → d < 16 → digit_value (hex_digit d) ≡ d
unfolding all_read
digit_value-hex d h = all_read-value 16 d h refl

unhex-hex_before :
    (count n : ℕ) (tail : String)
    → n < 16 ^ count
    → unhex_from 0 (hex_before count n tail) ≡ unhex_from n tail
unfolding unhex_from hex_before
unhex-hex_before zero n tail h = ap (λ m. unhex_from m tail) (omega arith)
unhex-hex_before (suc count) n tail h =
    let d = digit_value-hex (n % 16) (omega arith) in
    unhex-hex_before count (n / 16) _ (omega arith)
    ∙ ap (λ v. unhex_from (n / 16 * 16 + v) tail) d
    ∙ ap (λ m. unhex_from m tail) (omega arith)

-- A 64-bit number is read back from its sixteen digits.
pub unhex-hex16 : (n : ℕ) → n < 2 ^ 64 → unhex (hex16 n) ≡ n
unfolding unhex hex16
unhex-hex16 n h = unhex-hex_before 16 n "" h

hex16_test : hex16 0xbeef ≡ "000000000000beef"
unfolding hex16
hex16_test = refl
