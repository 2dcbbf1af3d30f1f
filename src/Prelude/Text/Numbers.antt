-- ===== src/Prelude/Text/Numbers.antt =====
-- Numbers in text: `parse::<u16>`, the port of a socket address, and `to_string`.
use Prim.Native.Nat.{ℕ, zero, suc, ◌+◌, ◌-◌, ◌*◌, ◌/◌, ◌%◌, ◌<◌}
use Prim.Native.Char.{code}
use Prim.Native.String.{String, [], ◌∷◌, ◌++◌}
use mathlib.Core.Path.{◌≡◌, refl}
use mathlib.Core.Bool.{◌&&◌}
use mathlib.Core.Option.{Option, none, some}
use native.Mathlib.Omega.{arith}
use sentiric_b2bua_service.Prelude.Tests.{ltb, leb, ◌=ℕ◌, if◌then◌else◌}

digits_from : ℕ → String → Option ℕ
digits_from n [] = some n
digits_from n (c ∷ s) =
    let rest = digits_from (n * 10 + (code c - 48)) s in
    if leb 48 (code c) && leb (code c) 57 then rest else none

digits : String → Option ℕ
unfolding digits_from
digits [] = none
digits (c ∷ s) = digits_from 0 (c ∷ s)

unsigned : String → Option ℕ
unfolding digits
unsigned [] = none
unsigned (c ∷ s) = if code c =ℕ 43 then digits s else digits (c ∷ s)

abbrev within : ℕ → Option ℕ → Option ℕ
within limit none = none
within limit (some n) = if ltb n limit then some n else none

-- s.parse::<u16>(): digits behind at most one `+`, in range
unfoldable pub parse_u16 : String → Option ℕ
unfolding unsigned
parse_u16 s = within 65536 (unsigned s)

-- the port of a socket address in text: digits alone, in range
unfoldable pub parse_port : String → Option ℕ
unfolding digits
parse_port s = within 65536 (digits s)

pub parse_u16-lt : (s : String) {n : ℕ} → parse_u16 s ≡ some n → n < 65536
unfolding parse_u16
parse_u16-lt s e = ground arith

pub parse_port-lt : (s : String) {n : ℕ} → parse_port s ≡ some n → n < 65536
unfolding parse_port
parse_port-lt s e = ground arith

digit : ℕ → String
digit n =
    if n =ℕ 0
    then "0"
    else if n =ℕ 1
    then "1"
    else if n =ℕ 2
    then "2"
    else if n =ℕ 3
    then "3"
    else if n =ℕ 4
    then "4"
    else if n =ℕ 5
    then "5"
    else if n =ℕ 6
    then "6"
    else if n =ℕ 7
    then "7"
    else if n =ℕ 8
    then "8"
    else "9"

show_from : ℕ → ℕ → String
unfolding digit
show_from zero n = ""
show_from (suc fuel) n =
    let rest = show_from fuel (n / 10) in if ltb n 10 then digit n else rest ++ digit (n % 10)

-- n.to_string(); a number has fewer digits than its value plus two
unfoldable pub show : ℕ → String
unfolding show_from
show n = show_from (suc n) n

show_test : show 30000 ≡ "30000"
unfolding show
show_test = refl

parse_u16_test : parse_u16 "65535" ≡ some 65535
unfolding parse_u16
parse_u16_test = refl

parse_u16_overflow : parse_u16 "65536" ≡ none
unfolding parse_u16
parse_u16_overflow = refl
