-- ===== src/Diff/Lcs/Table.antt =====
-- The table of `computeLCS` holds the lengths that the recursive definition gives.
use collab_editor.Prelude.{
  ℕ, zero, suc, ◌+◌, ◌<◌, ◌≤◌, ◌≡◌, refl, sym, ap, ◌∙◌, List, [], ◌∷◌, length, get_or, drop,
  replicate, arith, Text, text_eq,
}
use collab_editor.Diff.Lcs.{cell, fill_row, fill_table, dp_table, at}

-- The length of a longest common subsequence of the first `i` and the first `j` lines, by recursion.
unfoldable pub lcs_length : List Text → List Text → ℕ → ℕ → ℕ
lcs_length a b zero j = 0
lcs_length a b (suc i) zero = 0
lcs_length a b (suc i) (suc j) =
    cell (text_eq (get_or a i []) (get_or b j [])) (lcs_length a b i j) (lcs_length a b i (suc j))
      (lcs_length a b (suc i) j)

get_or-drop : (k : ℕ) (l : List ℕ) → get_or (drop 1 l) k 0 ≡ get_or l (suc k) 0
get_or-drop k [] = refl
get_or-drop k (x ∷ l) = refl

get_or-replicate : (n k : ℕ) {z : ℕ} → z ≡ 0 → get_or (replicate n z) k 0 ≡ z
get_or-replicate zero k h = sym h
get_or-replicate (suc n) zero h = refl
get_or-replicate (suc n) (suc k) h = get_or-replicate n k h

module _ (a b : List Text) where
  pub lcs_length-suc :
      (i j : ℕ)
      → lcs_length a b (suc i) (suc j)
        ≡ cell
            (text_eq (get_or a i []) (get_or b j []))
            (lcs_length a b i j)
            (lcs_length a b i (suc j))
            (lcs_length a b (suc i) j)
  unfolding lcs_length
  lcs_length-suc i j = refl

  -- What the inner loop finds when it stands at column `j` of row `i`.
  record IsFront (i j : ℕ) (ys : List Text) (prev : List ℕ) (left : ℕ) : Type 0 where
    lines : (k : ℕ) → k < length ys → get_or ys k [] ≡ get_or b (j + k) []
    above : (k : ℕ) → k ≤ length ys → get_or prev k 0 ≡ lcs_length a b i (j + k)
    before : left ≡ lcs_length a b (suc i) j

  front_cell :
      (i j : ℕ) (y : Text) (ys : List Text) (prev : List ℕ) (left : ℕ)
      → IsFront i j (y ∷ ys) prev left
      → cell (text_eq (get_or a i []) y) (get_or prev 0 0) (get_or prev 1 0) left
        ≡ lcs_length a b (suc i) (suc j)
  front_cell i j y ys prev left f =
      let e0 : j + 0 ≡ j = omega arith in
      let e1 : j + 1 ≡ suc j = omega arith in
      cc (
        e0,
        e1,
        f.lines 0 (omega arith),
        f.above 0 (omega arith),
        f.above 1 (omega arith),
        f.before,
        lcs_length-suc i j,
      )

  IsFront-next :
      (i j : ℕ) (y : Text) (ys : List Text) (prev : List ℕ) (left v : ℕ)
      → IsFront i j (y ∷ ys) prev left
      → v ≡ lcs_length a b (suc i) (suc j)
      → IsFront i (suc j) ys (drop 1 prev) v
  IsFront-next i j y ys prev left v f e = record {
    lines =
        λ k h. let s : suc j + k ≡ j + suc k = omega arith in rw s (f.lines (suc k) (omega arith));
    above = λ k h.
        let s : suc j + k ≡ j + suc k = omega arith in
        rw s (get_or-drop k prev ∙ f.above (suc k) (omega arith));
    before = e;
  }

  get_or-fill_row :
      (i j : ℕ) (ys : List Text) (prev : List ℕ) (left : ℕ)
      → IsFront i j ys prev left
      → (k : ℕ) → k < length ys
      → get_or (fill_row (get_or a i []) ys prev left) k 0 ≡ lcs_length a b (suc i) (suc j + k)
  unfolding fill_row
  get_or-fill_row i j [] prev left f k h = absurd (omega arith)
  get_or-fill_row i j (y ∷ ys) prev left f zero h =
      let s : suc j + 0 ≡ suc j = omega arith in rw s (front_cell i j y ys prev left f)
  get_or-fill_row i j (y ∷ ys) prev left f (suc k) h =
      let s : suc j + suc k ≡ suc (suc j) + k = omega arith in
      let v = cell (text_eq (get_or a i []) y) (get_or prev 0 0) (get_or prev 1 0) left in
      rw s (
        get_or-fill_row i (suc j) ys (drop 1 prev) v
          (IsFront-next i j y ys prev left v f (front_cell i j y ys prev left f)) k (omega arith))

  -- A row of the table, as far as it is read.
  abbrev IsRow : ℕ → List ℕ → Type 0
  IsRow i row = (j : ℕ) → j ≤ length b → get_or row j 0 ≡ lcs_length a b i j

  first-IsRow : IsRow 0 (replicate (suc (length b)) 0)
  unfolding lcs_length
  first-IsRow j h = get_or-replicate (suc (length b)) j refl

  fill_row-IsRow :
      (i : ℕ) (prev : List ℕ) → IsRow i prev → IsRow (suc i) (0 ∷ fill_row (get_or a i []) b prev 0)
  fill_row-IsRow i prev h zero k = unfold lcs_length in refl
  fill_row-IsRow i prev h (suc j) k =
      let z : (m : ℕ) → 0 + m ≡ m = λ m. omega arith in
      let s : suc 0 + j ≡ suc j = omega arith in
      rw s at (
        get_or-fill_row i 0 b prev 0
          (record {
            lines = λ m q. rw (z m);
            above = λ m q. rw (z m) (h m q);
            before = unfold lcs_length in refl;
          })
          j (omega arith))

  get_or-fill_table :
      (i : ℕ) (xs : List Text) (prev : List ℕ)
      → ((k : ℕ) → get_or xs k [] ≡ get_or a (i + k) [])
      → IsRow i prev
      → (k : ℕ) → k ≤ length xs
      → IsRow (i + k) (get_or (fill_table xs b prev) k [])
  unfolding fill_table
  get_or-fill_table i [] prev hx h zero q = let s : i + 0 ≡ i = omega arith in rw s h
  get_or-fill_table i [] prev hx h (suc k) q = absurd (omega arith)
  get_or-fill_table i (x ∷ xs) prev hx h zero q = let s : i + 0 ≡ i = omega arith in rw s h
  get_or-fill_table i (x ∷ xs) prev hx h (suc k) q =
      let s : i + suc k ≡ suc i + k = omega arith in
      let s0 : i + 0 ≡ i = omega arith in
      let e : x ≡ get_or a i [] = hx 0 ∙ ap (λ m. get_or a m []) s0 in
      rw (s, e)
        (get_or-fill_table (suc i) xs (0 ∷ fill_row (get_or a i []) b prev 0)
          (λ m. let t : suc i + m ≡ i + suc m = omega arith in rw t (hx (suc m)))
          (fill_row-IsRow i prev h) k (omega arith))

  -- Every cell of the table that `computeLCS` fills is the recursive length.
  pub at-dp_table :
      (i j : ℕ) → i ≤ length a → j ≤ length b → at (dp_table a b) i j ≡ lcs_length a b i j
  unfolding dp_table
  at-dp_table i j hi hj =
      let z : (m : ℕ) → 0 + m ≡ m = λ m. omega arith in
      rw (z i) at
        (get_or-fill_table 0 a (replicate (suc (length b)) 0) (λ k. rw (z k)) first-IsRow i hi j hj)
