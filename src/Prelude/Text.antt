-- ===== src/Prelude/Text.antt =====
-- The functions of Rust's `str` that the source calls, over code points.
pub mod Replacing
mod Numbers
unfoldable pub use Numbers.*
use Prim.Native.Nat.{ℕ, zero, suc, ◌+◌, ◌-◌, ◌*◌, ◌/◌, ◌%◌, ◌<◌, pred}
use Prim.Native.Char.{Char, code}
use Prim.Native.String
use Prim.Native.String.{String, [], ◌∷◌, ◌++◌}
use mathlib.Core.Path.{◌≡◌, refl}
use mathlib.Core.Bool.{Bool, true, false, ◌&&◌, ◌||◌}
use mathlib.Core.List.{List}
use mathlib.Core.Option.{Option, none, some}
use native.Mathlib.Omega.{arith}
use text.Mathlib.Text.{◌==◌}
use sentiric_b2bua_service.Prelude.Tests.{ltb, leb, ◌=ℕ◌, if◌then◌else◌}

-- s.strip_prefix(pat)
unfoldable pub strip_prefix : String → String → Option String
strip_prefix s [] = some s
strip_prefix [] (d ∷ pat) = none
strip_prefix (c ∷ s) (d ∷ pat) = if code c =ℕ code d then strip_prefix s pat else none

abbrev is_some : Option String → Bool
is_some none = false
is_some (some s) = true

-- s.starts_with(pat)
unfoldable pub starts_with : String → String → Bool
unfolding strip_prefix
starts_with s pat = is_some (strip_prefix s pat)

-- s.contains(pat)
unfoldable pub contains : String → String → Bool
unfolding starts_with
contains [] pat = starts_with "" pat
contains (c ∷ s) pat = starts_with (c ∷ s) pat || contains s pat

abbrev push : String → Char → String
push s c = s ++ (c ∷ [])

-- `skip` code points of a separator that was found are still to be passed over.
split_from : String → String → ℕ → String → List String
unfolding starts_with
split_from pat cur skip [] = List.◌∷◌ cur List.[]
split_from pat cur (suc skip) (c ∷ s) = split_from pat cur skip s
split_from pat cur zero (c ∷ s) =
    let closed = List.◌∷◌ cur (split_from pat "" (pred (String.count pat)) s) in
    let longer = split_from pat (push cur c) zero s in
    if starts_with (c ∷ s) pat then closed else longer

-- s.split(pat), for a separator that is not empty
unfoldable pub split : String → String → List String
unfolding split_from
split s pat = split_from pat "" zero s

join : String → List String → String
join by List.[] = ""
join by (List.◌∷◌ s List.[]) = s
join by (List.◌∷◌ s (List.◌∷◌ t ts)) = s ++ (by ++ join by (List.◌∷◌ t ts))

-- s.replace(pat, by), for a pattern that is not empty
unfoldable pub replace : String → String → String → String
unfolding split join
replace s pat by = join by (split s pat)

-- char::is_whitespace
unfoldable pub is_whitespace : Char → Bool
is_whitespace c =
    let n = code c in
    (leb 9 n && leb n 13)
    || n =ℕ 32
    || n =ℕ 0x85
    || n =ℕ 0xa0
    || n =ℕ 0x1680
    || (leb 0x2000 n && leb n 0x200a)
    || n =ℕ 0x2028
    || n =ℕ 0x2029
    || n =ℕ 0x202f
    || n =ℕ 0x205f
    || n =ℕ 0x3000

trim_start : String → String
unfolding is_whitespace
trim_start [] = []
trim_start (c ∷ s) = let rest = trim_start s in if is_whitespace c then rest else c ∷ s

trim_end : String → String
unfolding is_whitespace
trim_end [] = []
trim_end (c ∷ s) = let rest = trim_end s in if is_whitespace c && rest == "" then "" else c ∷ rest

-- s.trim()
unfoldable pub trim : String → String
unfolding trim_start trim_end
trim s = trim_end (trim_start s)

strip_cr : String → String
strip_cr [] = []
strip_cr (c ∷ []) = if code c =ℕ 13 then [] else c ∷ []
strip_cr (c ∷ (d ∷ s)) = c ∷ strip_cr (d ∷ s)

drop_last_empty : List String → List String
drop_last_empty List.[] = List.[]
drop_last_empty (List.◌∷◌ s List.[]) = if s == "" then List.[] else List.◌∷◌ s List.[]
drop_last_empty (List.◌∷◌ s (List.◌∷◌ t ts)) = List.◌∷◌ s (drop_last_empty (List.◌∷◌ t ts))

-- s.lines(): a line ends at "\n" or "\r\n", and a final line end starts no new line
cut_lines : String → String → List String
cut_lines cur [] = List.◌∷◌ cur List.[]
cut_lines cur (c ∷ s) =
    let closed = List.◌∷◌ cur (cut_lines "" s) in
    let longer = cut_lines (push cur c) s in if code c =ℕ 10 then closed else longer

close_lines : List String → List String
unfolding strip_cr
close_lines List.[] = List.[]
close_lines (List.◌∷◌ s List.[]) = List.◌∷◌ s List.[]
close_lines (List.◌∷◌ s (List.◌∷◌ t ts)) = List.◌∷◌ (strip_cr s) (close_lines (List.◌∷◌ t ts))

unfoldable pub lines : String → List String
unfolding cut_lines close_lines drop_last_empty
lines s = drop_last_empty (close_lines (cut_lines "" s))

words_from : String → String → List String
unfolding is_whitespace
words_from cur [] = if cur == "" then List.[] else List.◌∷◌ cur List.[]
words_from cur (c ∷ s) =
    let rest = words_from "" s in
    let longer = words_from (push cur c) s in
    if is_whitespace c then (if cur == "" then rest else List.◌∷◌ cur rest) else longer

-- s.split_whitespace()
unfoldable pub split_whitespace : String → List String
unfolding words_from
split_whitespace s = words_from "" s

-- it.nth(1)
abbrev pub second : List String → Option String
second (List.◌∷◌ a (List.◌∷◌ b rest)) = some b
second _ = none

trim_test : trim "  a b\r" ≡ "a b"
unfolding trim
trim_test = refl

split_test : split "a;tag=b;tag=c" ";tag=" ≡ List.◌∷◌ "a" (List.◌∷◌ "b" (List.◌∷◌ "c" List.[]))
unfolding split
split_test = refl

replace_test : replace "<sip:a@b>" "<" "" ≡ "sip:a@b>"
unfolding replace
replace_test = refl

lines_test : lines "a\r\nb\n" ≡ List.◌∷◌ "a" (List.◌∷◌ "b" List.[])
unfolding lines
lines_test = refl
