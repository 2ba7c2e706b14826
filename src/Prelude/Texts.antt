-- ===== src/Prelude/Texts.antt =====
-- JavaScript strings: lists of UTF-16 code units, with `===`, `slice`, `startsWith` and `indexOf`.
use Prim.Native.Nat.{ℕ, zero, suc, ◌+◌, ◌-◌, ◌%◌, ◌/◌}
use Prim.Native.Char.{code}
use Prim.Native.String.{String}
use mathlib.Core.Path.{◌≡◌, refl}
use mathlib.Core.Logic.{◌↔◌}
use mathlib.Core.Bool.{Bool, true, false, ◌&&◌}
use mathlib.Core.Option.{Option, none, some}
use mathlib.Core.List.{List, [], ◌∷◌, ◌++◌}
use native.Mathlib.Omega.{arith}
use collab_editor.Prelude.Tests.{◌==◌, ltb, if◌then◌else◌}
use collab_editor.Prelude.Lists.{length, take, drop}

abbrev pub Text : Type 0
Text = List ℕ

-- A literal of the source. The literals are ASCII, so each character is one code unit.
abbrev pub text : String → Text
text String.[] = []
text (String.◌∷◌ c s) = code c ∷ text s

unfoldable pub text_eq : Text → Text → Bool
text_eq [] [] = true
text_eq [] (y ∷ ys) = false
text_eq (x ∷ xs) [] = false
text_eq (x ∷ xs) (y ∷ ys) = x == y && text_eq xs ys

pub text_eq_sound : (s t : Text) → text_eq s t ≡ true → s ≡ t
unfolding text_eq
text_eq_sound [] [] h = refl
text_eq_sound [] (y ∷ ys) h = cc
text_eq_sound (x ∷ xs) [] h = cc
text_eq_sound (x ∷ xs) (y ∷ ys) h = ground (arith, text_eq_sound xs ys)

pub text_eq_refl : (s : Text) → text_eq s s ≡ true
unfolding text_eq
text_eq_refl [] = refl
text_eq_refl (x ∷ xs) = ground (arith, text_eq_refl xs)

pub text_eq_complete : (s t : Text) → s ≡ t → text_eq s t ≡ true
text_eq_complete s t e = rw e (text_eq_refl t)

-- What `ground` and `grind` are given at each pair of strings that is compared.
pub text_eq_iff : (s t : Text) → (text_eq s t ≡ true) ↔ (s ≡ t)
text_eq_iff s t = (text_eq_sound s t, text_eq_complete s t)

-- `s.slice(from, to)` at offsets that are not negative.
abbrev pub slice : ℕ → ℕ → Text → Text
slice from to s = take (to - from) (drop from s)

unfoldable pub starts_with : Text → Text → Bool
starts_with [] s = true
starts_with (x ∷ xs) [] = false
starts_with (x ∷ xs) (y ∷ ys) = x == y && starts_with xs ys

pub starts_with-append : (p s : Text) → starts_with p (p ++ s) ≡ true
unfolding starts_with
starts_with-append [] s = refl
starts_with-append (x ∷ p) s = ground (arith, starts_with-append p s)

pub append_drop_of_starts_with : (p s : Text) → starts_with p s ≡ true → p ++ drop (length p) s ≡ s
unfolding starts_with
append_drop_of_starts_with [] s h = refl
append_drop_of_starts_with (x ∷ p) [] h = cc
append_drop_of_starts_with (x ∷ p) (y ∷ s) h = ground (arith, append_drop_of_starts_with p s)

-- `haystack.indexOf(needle)`, with `none` for -1.
unfoldable pub index_of : Text → Text → Option ℕ
index_of needle [] = elim (starts_with needle []) [ true ↦ some 0 | false ↦ none ]
index_of needle (c ∷ s) = elim (starts_with needle (c ∷ s)) [
  | true ↦ some 0
  | false ↦ elim (index_of needle s) [ none ↦ none | some i ↦ some (suc i) ]
]

-- A number in a template string: its decimal digits, by fuel.
digits_from : ℕ → ℕ → Text → Text
digits_from zero n acc = acc
digits_from (suc fuel) n acc =
    let acc' = (b'0' + n % 10) ∷ acc in
    let rest = digits_from fuel (n / 10) acc' in if ltb n 10 then acc' else rest

-- A number below 2 ^ 53 has sixteen digits at most.
unfoldable pub decimal : ℕ → Text
unfolding digits_from
decimal n = digits_from 17 n []
