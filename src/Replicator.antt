-- ===== src/Replicator.antt =====
-- `DocReplicator` (frontend/src/collab/doc-replicator.ts) and the documents of
-- `CollaborationProvider` (collab-provider.ts): the document on the wire, the editor's document, and
-- the two gates between them.
pub mod Delivery
use collab_editor.Prelude.{
  ℕ, zero, suc, ◌+◌, Bool, true, false, not, ◌&&◌, Option, none, some, if◌then◌else◌,
}
use collab_editor.Yjs.{SharedDoc}

pub data Side : Type 0 where
  sync_side editor_side : Side

-- The origin of a Yjs transaction: the replicator's own symbol, or anything else.
pub data Origin : Type 0 where
  own other : Origin

abbrev pub opposite : Side → Side
opposite sync_side = editor_side
opposite editor_side = sync_side

module _ (y : SharedDoc) where
  open y use {Doc, Update, empty, apply_update, encode_state}

  pub record Replicator : Type 0 where
    pub sync_doc : Doc
    pub editor_doc : Doc
    pub inbound_open : Bool
    pub outbound_open : Bool
    pub destroyed : Bool
    -- How often the subscribers of `onEditorDocReset` were called.
    pub resets : ℕ

  -- The constructor: both gates are open.
  abbrev pub new_replicator : Doc → Doc → ℕ → Replicator
  new_replicator sync editor resets = record {
    sync_doc = sync;
    editor_doc = editor;
    inbound_open = true;
    outbound_open = true;
    destroyed = false;
    resets = resets;
  }

  -- The tests at the head of the two listeners.
  unfoldable pub forwards : Replicator → Side → Origin → Bool
  forwards r side own = false
  forwards r sync_side other = not r.destroyed && r.inbound_open
  forwards r editor_side other = not r.destroyed && r.outbound_open

  abbrev pub apply_at : Side → Update → Replicator → Replicator
  apply_at sync_side u r = record r { sync_doc = apply_update u r.sync_doc }
  apply_at editor_side u r = record r { editor_doc = apply_update u r.editor_doc }

  -- An update reaches one document, and its listener may apply it to the other with the replicator's
  -- own origin, which runs the listener there. `none` means that the fuel ran out.
  unfoldable pub deliver : ℕ → Side → Update → Origin → Replicator → Option Replicator
  deliver zero side u origin r = none
  deliver (suc fuel) side u origin r =
      let r' = apply_at side u r in
      let rest = deliver fuel (opposite side) u own r' in
      if forwards r' side origin then rest else some r'

  -- What two rounds of listeners make of an update (see `deliver_lem`).
  unfoldable pub receive : Side → Update → Origin → Replicator → Replicator
  unfolding forwards
  receive side u origin r =
      if forwards r side origin
      then apply_at (opposite side) u (apply_at side u r)
      else apply_at side u r

  unfoldable pub seed_editor_from_sync : Replicator → Replicator
  unfolding receive
  seed_editor_from_sync r =
      if r.destroyed then r else receive editor_side (encode_state r.sync_doc) own r

  unfoldable pub destroy : Replicator → Replicator
  destroy r = record r { destroyed = true }

  -- `resetEditorDoc`: a fresh editor document and a fresh replicator, seeded from the wire's document.
  unfoldable pub reset_editor_doc : Replicator → Replicator
  unfolding seed_editor_from_sync
  reset_editor_doc r = seed_editor_from_sync (new_replicator r.sync_doc empty (r.resets + 1))
