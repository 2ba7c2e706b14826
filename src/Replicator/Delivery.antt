-- ===== src/Replicator/Delivery.antt =====
-- What reaches which document.
use collab_editor.Prelude.{ℕ, suc, ◌≡◌, refl, true, false, some, arith}
use collab_editor.Yjs.{SharedDoc}
use collab_editor.Replicator.{
  Side, sync_side, editor_side, Origin, own, other, Replicator, deliver, receive, reset_editor_doc,
}

module _ (y : SharedDoc) where
  open y use {Doc, Update, apply_update, apply_update-encode_state}

  -- Two rounds of listeners deliver any update: the replicator does not echo what it forwarded.
  pub deliver_lem :
      (side : Side) (u : Update) (origin : Origin) (r : Replicator y) (fuel : ℕ)
      → deliver y (suc (suc fuel)) side u origin r ≡ some (receive y side u origin r)
  unfolding deliver receive
  deliver_lem sync_side u own r fuel = refl
  deliver_lem sync_side u other r fuel = ground arith
  deliver_lem editor_side u own r fuel = refl
  deliver_lem editor_side u other r fuel = ground arith

  -- With the outbound gate shut a local edit reaches the editor's document only.
  pub receive-closed :
      (u : Update) (r : Replicator y)
      → r.outbound_open ≡ false
      → ((receive y editor_side u other r).sync_doc ≡ r.sync_doc)
        × ((receive y editor_side u other r).editor_doc ≡ apply_update u r.editor_doc)
  unfolding receive
  receive-closed u r h = ground arith

  -- A reset makes the editor's document a copy of the wire's, which stays, and opens both gates.
  pub reset_editor_doc_lem :
      (r : Replicator y)
      → ((reset_editor_doc y r).editor_doc ≡ r.sync_doc)
        × ((reset_editor_doc y r).sync_doc ≡ r.sync_doc)
        × ((reset_editor_doc y r).outbound_open ≡ true)
        × ((reset_editor_doc y r).inbound_open ≡ true)
        × ((reset_editor_doc y r).destroyed ≡ false)
  unfolding reset_editor_doc
  reset_editor_doc_lem r = (apply_update-encode_state r.sync_doc, refl, refl, refl, refl)
