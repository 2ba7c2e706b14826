-- ===== src/Yjs.antt =====
-- What the program relies on of Yjs, which it does not implement: shared texts and documents.
use collab_editor.Prelude.{
  ℕ, ◌+◌, ◌-◌, ◌≤◌, ◌≡◌, Bool, false, ◌&&◌, ltb, leb, get_or, ◌++◌, length, take, drop, Text,
}

-- Whether an offset lies between the halves of a surrogate pair.
unfoldable pub splits_pair : ℕ → Text → Bool
splits_pair i s =
    ltb 0 i
    && leb 0xd800 (get_or s (i - 1) 0)
    && ltb (get_or s (i - 1) 0) 0xdc00
    && leb 0xdc00 (get_or s i 0)
    && ltb (get_or s i 0) 0xe000

-- `Y.Text`: `delete(index, length)` and `insert(index, text)` within the text edit the string that
-- `toString()` returns, if they do not split a surrogate pair; of one that is split Yjs replaces both
-- halves.
pub record SharedText : Type 1 where
  pub Doc : Type 0
  pub to_string : Doc → Text
  pub delete : ℕ → ℕ → Doc → Doc
  pub insert : ℕ → Text → Doc → Doc
  pub to_string-delete :
      (d : Doc) (i n : ℕ)
      → i + n ≤ length (to_string d)
      → splits_pair i (to_string d) ≡ false
      → splits_pair (i + n) (to_string d) ≡ false
      → to_string (delete i n d) ≡ take i (to_string d) ++ drop (i + n) (to_string d)
  pub to_string-insert :
      (d : Doc) (i : ℕ) (t : Text)
      → i ≤ length (to_string d)
      → splits_pair i (to_string d) ≡ false
      → to_string (insert i t d) ≡ take i (to_string d) ++ (t ++ drop i (to_string d))

-- `Y.Doc`: `Y.applyUpdate` merges an update into a document, in any order with
-- the same result, and the whole state of a document, applied to an empty one, copies it.
pub record SharedDoc : Type 1 where
  pub Doc : Type 0
  pub Update : Type 0
  pub empty : Doc
  pub apply_update : Update → Doc → Doc
  pub encode_state : Doc → Update
  pub apply_update_comm :
      (u v : Update) (d : Doc)
      → apply_update u (apply_update v d) ≡ apply_update v (apply_update u d)
  pub apply_update-encode_state : (d : Doc) → apply_update (encode_state d) empty ≡ d
