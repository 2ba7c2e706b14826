-- ===== src/Blame/Color.antt =====
-- `BlameEngine.assignColor` of frontend/src/collab/blame-engine.ts. The hash is a signed 32-bit
-- integer; here it is its bit pattern, a number below 2 ^ 32.
use collab_editor.Prelude.{
  ℕ, ◌+◌, ◌-◌, ◌*◌, ◌%◌, ◌^◌, ◌<◌, ◌≡◌, refl, List, [], ◌∷◌, Option, some, length, get_elem?,
  get_or, get_elem?-get_or, arith, Text, text, ltb, if◌then◌else◌,
}
use mathlib.Core.List.{foldl}

abbrev pub palette : List Text
palette =
    text "#e06c75"
    ∷ text "#61afef"
    ∷ text "#98c379"
    ∷ text "#d19a66"
    ∷ text "#c678dd"
    ∷ text "#56b6c2"
    ∷ text "#e5c07b"
    ∷ text "#be5046"
    ∷ text "#528bff"
    ∷ text "#7c8fa6"
    ∷ text "#f5a623"
    ∷ text "#50e3c2"
    ∷ text "#b8e986"
    ∷ text "#bd10e0"
    ∷ text "#4a90d9"
    ∷ []

-- `((hash << 5) - hash + c) | 0`: the shift wraps to 32 bits, the difference and the sum are exact
-- and wrap at the end.
unfoldable pub hash_step : ℕ → ℕ → ℕ
hash_step hash c = (hash * 32 % 2 ^ 32 + 2 ^ 32 - hash + c) % 2 ^ 32

unfoldable pub hash_of : Text → ℕ
hash_of = foldl hash_step 0

-- `Math.abs` of the integer that the pattern stands for; it is exact, also at -2 ^ 31.
unfoldable pub abs32 : ℕ → ℕ
abs32 hash = if ltb hash (2 ^ 31) then hash else 2 ^ 32 - hash

unfoldable pub assign_color : Text → Option Text
assign_color user_name = get_elem? palette (abs32 (hash_of user_name) % length palette)

-- The polynomial in 31, without any wrap-around.
abbrev pub polynomial : ℕ → Text → ℕ
polynomial acc [] = acc
polynomial acc (c ∷ s) = polynomial (acc * 31 + c) s

hash_step_lem : (a h c : ℕ) → h ≡ a % 2 ^ 32 → hash_step h c ≡ (a * 31 + c) % 2 ^ 32
unfolding hash_step
hash_step_lem a h c e = omega arith

hash_from : (s : Text) (a h : ℕ) → h ≡ a % 2 ^ 32 → foldl hash_step h s ≡ polynomial a s % 2 ^ 32
hash_from [] a h e = e
hash_from (c ∷ s) a h e = hash_from s (a * 31 + c) (hash_step h c) (hash_step_lem a h c e)

-- The hash with its shifts and wrap-arounds is the polynomial hash modulo 2 ^ 32.
pub hash_of_lem : (s : Text) → hash_of s ≡ polynomial 0 s % 2 ^ 32
unfolding hash_of
hash_of_lem s = hash_from s 0 0 refl

in_palette : (i : ℕ) → i < 15 → (c : Text) × (get_elem? palette i ≡ some c)
in_palette i h = (get_or palette i [], get_elem?-get_or palette i [] h)

-- Every user name gets a color of the palette.
pub assign_color_total : (user_name : Text) → (c : Text) × (assign_color user_name ≡ some c)
unfolding assign_color
assign_color_total user_name = in_palette _ (omega arith)
