-- ===== src/Blame.antt =====
-- Authorship of ranges of text: the live blame of frontend/src/collab/blame-engine.ts and the version
-- blame of packages/provider-sdk-ts/src/blame.ts. Both end in the same loop step, which is here.
pub mod Tiling
pub mod Live
pub mod Color
pub mod Log
pub mod Coordinator
pub mod Versions
use collab_editor.Prelude.{ℕ, ◌+◌, List, [], ◌∷◌, ◌&&◌, Text, text_eq, ◌==◌, if◌then◌else◌}

pub record BlameSegment : Type 0 where
  pub start : ℕ
  pub end : ℕ
  pub user_name : Text

abbrev pub segment : ℕ → ℕ → Text → BlameSegment
segment offset len user_name = record { start = offset; end = offset + len; user_name = user_name }

-- The run of `len` code units at `offset` prolongs the last segment, if that ends here and is by the
-- same user; otherwise it is a new segment.
unfoldable pub push_run : List BlameSegment → ℕ → ℕ → Text → List BlameSegment
push_run [] offset len user_name = segment offset len user_name ∷ []
push_run (last ∷ []) offset len user_name =
    if text_eq last.user_name user_name && last.end == offset
    then record last { end = last.end + len } ∷ []
    else last ∷ segment offset len user_name ∷ []
push_run (s ∷ t ∷ rest) offset len user_name = s ∷ push_run (t ∷ rest) offset len user_name
