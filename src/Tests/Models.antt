-- ===== src/Tests/Models.antt =====
-- Concrete stand-ins for Yjs: a shared text as a string, and a document as a set of updates.
use mathlib.Core.Path.{fun_ext}
use collab_editor.Prelude.{ℕ, ◌+◌, ◌≡◌, refl, Bool, true, false, ◌||◌, ◌++◌, take, drop, Text, ◌==◌}
use collab_editor.Yjs.{SharedText, SharedDoc}

abbrev pub plain_text : SharedText
plain_text = record {
  Doc = Text;
  to_string = λ d. d;
  delete = λ i n d. take i d ++ drop (i + n) d;
  insert = λ i t d. take i d ++ (t ++ drop i d);
  to_string-delete = λ d i n h a b. refl;
  to_string-insert = λ d i t h a. refl;
}

pub or_comm : (a b c : Bool) → (a || (b || c)) ≡ (b || (a || c))
or_comm true true c = refl
or_comm true false c = refl
or_comm false b c = refl

pub or_false : (a : Bool) → (a || false) ≡ a
or_false true = refl
or_false false = refl

-- An update is the set of its changes, each with a number.
abbrev pub change_set : SharedDoc
change_set = record {
  Doc = ℕ → Bool;
  Update = ℕ → Bool;
  empty = λ _. false;
  apply_update = λ u d n. u n || d n;
  encode_state = λ d. d;
  apply_update_comm = λ u v d. fun_ext (λ n. or_comm (u n) (v n) (d n));
  apply_update-encode_state = λ d. fun_ext (λ n. or_false (d n));
}

-- The update with just one change.
abbrev pub only : ℕ → ℕ → Bool
only n m = n == m
