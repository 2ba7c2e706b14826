-- ===== src/Suggest.antt =====
-- `SuggestEngine` of frontend/src/collab/suggest-engine.ts: the payload that is built from two texts,
-- and the mode that keeps drafts off the wire.
pub mod Payload
pub mod Engine
use collab_editor.Prelude.{
  decimal, ℕ, zero, suc, ◌+◌, ◌-◌, max, Bool, true, false, not, ◌&&◌, List, [], ◌∷◌, ◌++◌, Option,
  none, some, length, take, drop, Text, text, text_eq, slice, ltb, leb, ◌==◌, if◌then◌else◌,
}
use collab_editor.Interfaces.{
  CommentAnchor, pos, OperationSummary, SuggestionView, SuggestionPayload, OperationKind, insert,
  delete, replace, format,
}
use collab_editor.Diff.Affix.{common_prefix, common_suffix}

-- An anchor whose offsets are computed from the texts.
pub record ComputedAnchor : Type 0 where
  pub start : ℕ
  pub end : ℕ
  pub quoted_text : Text

abbrev pub comment_anchor : ComputedAnchor → CommentAnchor
comment_anchor anchor = record {
  start = pos anchor.start;
  end = pos anchor.end;
  quoted_text = anchor.quoted_text;
}

unfoldable pub compute_anchor : Text → Text → ComputedAnchor
compute_anchor base_text after_text =
    let prefix = common_prefix base_text after_text in
    let suffix = common_suffix base_text after_text in
    let stop = max prefix (length base_text - suffix) in
    record { start = prefix; end = stop; quoted_text = slice prefix stop base_text }

-- `slice(anchor.start, anchor.end + (afterText.length - baseText.length))`: the end is computed with
-- the addition first, as it is never negative (see `Suggest.Payload`).
abbrev pub after_part : Text → Text → ComputedAnchor → Text
after_part base_text after_text anchor =
    slice anchor.start (anchor.end + length after_text - length base_text) after_text

abbrev pub operation : OperationKind → ℕ → ℕ → Option Text → List OperationSummary
operation kind offset len inserted =
    record {
      kind = kind;
      offset = offset;
      length = len;
      inserted_text = inserted;
      format_change = none;
    }
    ∷ []

unfoldable pub to_operation_summaries : Text → Text → ComputedAnchor → List OperationSummary
to_operation_summaries base_text after_text anchor =
    let before = slice anchor.start anchor.end base_text in
    let after = after_part base_text after_text anchor in
    if text_eq before after
    then []
    else if (length before == 0) && ltb 0 (length after)
    then operation insert anchor.start 0 (some after)
    else if ltb 0 (length before) && (length after == 0)
    then operation delete anchor.start (length before) none
    else operation replace anchor.start (length before) (some after)

-- "…" is one code unit.
unfoldable pub truncate : Text → ℕ → Text
truncate s limit = if leb (length s) limit then s else take (limit - 1) s ++ 8230 ∷ []

abbrev pub or_empty : Option Text → Text
or_empty none = []
or_empty (some s) = s

summary_of : OperationKind → OperationSummary → ComputedAnchor → Text → Text
summary_of insert op anchor base =
    text "Insert \"" ++ (truncate (or_empty op.inserted_text) 40 ++ text "\"")
summary_of delete op anchor base = text "Delete " ++ (decimal op.length ++ text " characters")
summary_of _ op anchor base =
    text "Change \""
    ++ (truncate (slice anchor.start anchor.end base) 40
        ++ (text "\" to \"" ++ (truncate (or_empty op.inserted_text) 40 ++ text "\"")))

unfoldable pub generate_summary : List OperationSummary → ComputedAnchor → Text → Text
unfolding summary_of
generate_summary [] anchor base = text "No changes"
generate_summary (op ∷ []) anchor base = summary_of op.kind op anchor base
generate_summary (op ∷ op2 ∷ rest) anchor base =
    text "Mixed edits (" ++ (decimal (length (op ∷ op2 ∷ rest)) ++ text " ops)")

-- The two errors that `buildSuggestion` throws.
pub data BuildError : Type 0 where
  not_active no_pending_changes : BuildError

pub data Built : Type 0 where
  built : SuggestionPayload → Built
  failed : BuildError → Built

-- `authorNote && authorNote.length > 0 ? authorNote : null`
abbrev pub nonempty : Option Text → Option Text
nonempty none = none
nonempty (some []) = none
nonempty (some (c ∷ s)) = some (c ∷ s)

abbrev pub payload_of : Option Text → Text → Text → SuggestionPayload
payload_of author_note before_text after_text =
    let anchor = compute_anchor before_text after_text in
    let operations = to_operation_summaries before_text after_text anchor in
    record {
      anchor = comment_anchor anchor;
      yjs_payload = none;
      view = record {
        summary = generate_summary operations anchor before_text;
        before_text = slice anchor.start anchor.end before_text;
        after_text = after_part before_text after_text anchor;
        operations = operations;
      };
      author_note = nonempty author_note;
    }
