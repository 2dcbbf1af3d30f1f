-- ===== src/Prelude/Text/Replacing.antt =====
-- A replacement at the start of a text.
use Prim.Native.Nat.{ℕ, zero, suc, pred}
use Prim.Native.Char.{Char, code}
use Prim.Native.String
use Prim.Native.String.{String, [], ◌∷◌, ◌++◌}
use mathlib.Core.Path.{◌≡◌, refl, ap, ◌∙◌}
use mathlib.Core.Logic.{◌≢◌, inl, inr}
use mathlib.Core.Bool.{true}
use mathlib.Core.List.{List}
use text.Mathlib.TextLemmas.{cons-append, nil-append}
use native.Mathlib.Omega.{arith}
use sentiric_b2bua_service.Prelude.Tests.{Bool-cases, ◌=ℕ◌}
use sentiric_b2bua_service.Prelude.Text.{starts_with, split_from, split, join, replace, push}

same_code : (n : ℕ) → (n =ℕ n) ≡ true
same_code n = ground arith

pub starts_with-append : (s t : String) → starts_with (s ++ t) s ≡ true
unfolding starts_with
starts_with-append [] t = refl
starts_with-append (c ∷ s) t =
    rw (cons-append c s t) (rw (same_code (code c)) (starts_with-append s t))

split_from-cons :
    (pat cur : String) (skip : ℕ) (s : String)
    → (t : String) × (ts : List String) × (split_from pat cur skip s ≡ List.◌∷◌ t ts)
unfolding split_from
split_from-cons pat cur skip [] = (cur, List.[], refl)
split_from-cons pat cur (suc skip) (c ∷ s) = split_from-cons pat cur skip s
split_from-cons pat cur zero (c ∷ s) = elim (Bool-cases (starts_with (c ∷ s) pat)) [
  | inl yes_it ↦ (cur, split_from pat "" (pred (String.count pat)) s, rw yes_it refl)
  | inr not_it ↦ rw not_it (split_from-cons pat (push cur c) 0 s)
]

closed_at :
    (pat : String) (c : Char) (s : String)
    → starts_with (c ∷ s) pat ≡ true
    → split (c ∷ s) pat ≡ List.◌∷◌ "" (split_from pat "" (pred (String.count pat)) s)
unfolding split
closed_at pat c s h = rw h refl

-- What is put for a match at the start stands at the start.
pub starts_with-replace :
    (s pat by : String)
    → starts_with s pat ≡ true
    → s ≢ ""
    → starts_with (replace s pat by) by ≡ true
unfolding replace
starts_with-replace [] pat by h ne = absurd (ne refl)
starts_with-replace (c ∷ s) pat by h ne =
    let (t, ts, e) = split_from-cons pat "" (pred (String.count pat)) s in
    let first = closed_at pat c s h ∙ ap (λ r. List.◌∷◌ "" r) e in
    rw (ap (join by) first ∙ nil-append (by ++ join by (List.◌∷◌ t ts)))
      (starts_with-append by (join by (List.◌∷◌ t ts)))
