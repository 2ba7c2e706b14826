-- ===== src/Diff/Lcs.antt =====
-- `computeLCS` of frontend/src/collab/diff-engine.ts: the table of lengths, filled row by row, and
-- the walk back through it.
pub mod Table
pub mod Matching
pub mod Optimal
use collab_editor.Prelude.{
  ℕ, zero, suc, ◌+◌, max, Bool, true, false, List, [], ◌∷◌, ◌++◌, reverse, length, get_or, drop,
  replicate, leb, if◌then◌else◌, Text, text_eq,
}

-- The two branches of the inner loop, at `dp[i - 1][j - 1]`, `dp[i - 1][j]` and `dp[i][j - 1]`.
unfoldable pub cell : Bool → ℕ → ℕ → ℕ → ℕ
cell same diag up left = if same then diag + 1 else max up left

-- The inner loop: `prev` is the rest of the row above, from `dp[i - 1][j - 1]` on.
unfoldable pub fill_row : Text → List Text → List ℕ → ℕ → List ℕ
fill_row x [] prev left = []
fill_row x (y ∷ ys) prev left =
    let v = cell (text_eq x y) (get_or prev 0 0) (get_or prev 1 0) left in
    v ∷ fill_row x ys (drop 1 prev) v

-- The outer loop: the rows from `prev` on.
unfoldable pub fill_table : List Text → List Text → List ℕ → List (List ℕ)
fill_table [] b prev = prev ∷ []
fill_table (x ∷ xs) b prev = prev ∷ fill_table xs b (0 ∷ fill_row x b prev 0)

unfoldable pub dp_table : List Text → List Text → List (List ℕ)
dp_table a b = fill_table a b (replicate (suc (length b)) 0)

abbrev pub at : List (List ℕ) → ℕ → ℕ → ℕ
at dp i j = get_or (get_or dp i []) j 0

-- The `while` loop that collects the pairs from the end of both sequences.
unfoldable pub backtrack :
    List Text → List Text → List (List ℕ) → ℕ → ℕ → List (ℕ × ℕ) → List (ℕ × ℕ)
backtrack a b dp zero j result = result
backtrack a b dp (suc i) zero result = result
backtrack a b dp (suc i) (suc j) result = elim (text_eq (get_or a i []) (get_or b j [])) [
  | true ↦ backtrack a b dp i j (result ++ (i, j) ∷ [])
  | false ↦ elim (leb (at dp (suc i) j) (at dp i (suc j))) [
    | true ↦ backtrack a b dp i (suc j) result
    | false ↦ backtrack a b dp (suc i) j result
  ]
]

unfoldable pub compute_lcs : List Text → List Text → List (ℕ × ℕ)
compute_lcs a b = reverse (backtrack a b (dp_table a b) (length a) (length b) [])
