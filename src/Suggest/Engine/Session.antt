-- ===== src/Suggest/Engine/Session.antt =====
-- A session of local edits, remote updates and Suggest Mode, over the two documents.
use mathlib.Core.List.{foldl}
use collab_editor.Prelude.{
  ◌≡◌, ◌≢◌, refl, ap, ◌∙◌, true, false, not, List, [], ◌∷◌, ◌++◌, Option, Text, arith, ◌⊎◌,
  text_eq_iff, if◌then◌else◌,
}
use collab_editor.Yjs.{SharedDoc}
use collab_editor.Replicator.{Replicator, sync_side, editor_side, other, receive, new_replicator}
use collab_editor.Replicator.Delivery.{reset_editor_doc_lem}
use collab_editor.Suggest.{built, failed, payload_of}
use collab_editor.Suggest.Engine.{
  SuggestEngine, new_engine, enable, rebase, build_suggestion, commit, discard, disable,
}

module _ (y : SharedDoc) where
  open y use {Doc, Update, empty, apply_update, apply_update_comm}

  -- What happens in a session. `edit` is a local change in the editor, `remote` one from a peer.
  pub data Action : Type 0 where
    edit remote : Update → Action
    start rebaseline : Text → Action
    submit : Option Text → Text → Action
    abandon leave : Action

  abbrev pub arrive : SuggestEngine y → Replicator y → SuggestEngine y
  arrive e collab = record e { collab = collab }

  unfoldable pub act : SuggestEngine y → Action → SuggestEngine y
  act e (edit u) = arrive e (receive y editor_side u other e.collab)
  act e (remote u) = arrive e (receive y sync_side u other e.collab)
  act e (start current) = enable y current e
  act e (rebaseline current) = rebase y current e
  act e (submit remark current) = (commit y remark current e).0
  act e abandon = discard y e
  act e leave = disable y e

  -- The local edits that the wire lacks, latest first: the drafts since Suggest Mode was entered, and
  -- the strays, which `disable` left behind in the editor's document.
  pub record Unsent : Type 0 where
    pub drafts : List Update
    pub strays : List Update

  abbrev pub nothing : Unsent
  nothing = record { drafts = []; strays = [] }

  unfoldable pub unsent_after : SuggestEngine y → Unsent → Action → Unsent
  unsent_after e p (edit u) = if e.enabled then record p { drafts = u ∷ p.drafts } else p
  unsent_after e p (submit remark current) = elim (build_suggestion y remark current e) [
    | built payload ↦ nothing
    | failed error ↦ p
  ]
  unsent_after e p abandon = if e.enabled then nothing else p
  unsent_after e p leave =
      if e.enabled then record { drafts = []; strays = p.drafts ++ p.strays } else p
  unsent_after e p (remote u) = p
  unsent_after e p (start current) = p
  unsent_after e p (rebaseline current) = p

  abbrev pub merge : List Update → Doc → Doc
  merge [] d = d
  merge (u ∷ us) d = apply_update u (merge us d)

  -- The gate is shut exactly in Suggest Mode, and the editor's document is the wire's document with
  -- the strays and the drafts merged into it; outside Suggest Mode there are no drafts.
  pub record IsSound (e : SuggestEngine y) (p : Unsent) : Type 0 where
    pub alive : e.collab.destroyed ≡ false
    pub inbound : e.collab.inbound_open ≡ true
    pub gate : e.collab.outbound_open ≡ not e.enabled
    pub merged : e.collab.editor_doc ≡ merge p.drafts (merge p.strays e.collab.sync_doc)
    pub idle : e.enabled ≡ false → p.drafts ≡ []

  apply_update-merge :
      (u : Update) (us : List Update) (d : Doc)
      → apply_update u (merge us d) ≡ merge us (apply_update u d)
  apply_update-merge u [] d = refl
  apply_update-merge u (v ∷ us) d =
      apply_update_comm u v (merge us d) ∙ ap (apply_update v) (apply_update-merge u us d)

  merge-append : (us vs : List Update) (d : Doc) → merge (us ++ vs) d ≡ merge us (merge vs d)
  merge-append [] vs d = refl
  merge-append (u ∷ us) vs d = ap (apply_update u) (merge-append us vs d)

  remote-IsSound :
      (e : SuggestEngine y) (p : Unsent) (u : Update) → IsSound e p → IsSound (act e (remote u)) p
  unfolding act receive
  remote-IsSound e p u s = ground (
    arith,
    apply_update-merge u p.drafts (merge p.strays e.collab.sync_doc),
    apply_update-merge u p.strays e.collab.sync_doc,
  )

  edit-IsSound :
      (e : SuggestEngine y) (p : Unsent) (u : Update)
      → IsSound e p
      → IsSound (act e (edit u)) (unsent_after e p (edit u))
  unfolding act receive unsent_after
  edit-IsSound e p u s = ground (arith, apply_update-merge u p.strays e.collab.sync_doc)

  start-IsSound :
      (e : SuggestEngine y) (p : Unsent) (t : Text) → IsSound e p → IsSound (act e (start t)) p
  unfolding act enable
  start-IsSound e p t s = ground arith

  rebaseline-IsSound :
      (e : SuggestEngine y) (p : Unsent) (t : Text) → IsSound e p → IsSound (act e (rebaseline t)) p
  unfolding act rebase
  rebaseline-IsSound e p t s = ground arith

  submit-IsSound :
      (e : SuggestEngine y) (p : Unsent) (remark : Option Text) (t : Text)
      → IsSound e p
      → IsSound (act e (submit remark t)) (unsent_after e p (submit remark t))
  unfolding act unsent_after commit
  submit-IsSound e p remark t s = ground (arith, reset_editor_doc_lem y e.collab)

  abandon-IsSound :
      (e : SuggestEngine y) (p : Unsent)
      → IsSound e p
      → IsSound (act e abandon) (unsent_after e p abandon)
  unfolding act discard unsent_after
  abandon-IsSound e p s = ground (arith, reset_editor_doc_lem y e.collab)

  leave-IsSound :
      (e : SuggestEngine y) (p : Unsent)
      → IsSound e p
      → IsSound (act e leave) (unsent_after e p leave)
  unfolding act disable unsent_after
  leave-IsSound e p s = ground (arith, merge-append p.drafts p.strays e.collab.sync_doc)

  act-IsSound :
      (e : SuggestEngine y) (p : Unsent) (a : Action)
      → IsSound e p
      → IsSound (act e a) (unsent_after e p a)
  unfolding unsent_after
  act-IsSound e p (edit u) s = edit-IsSound e p u s
  act-IsSound e p (remote u) s = remote-IsSound e p u s
  act-IsSound e p (start t) s = start-IsSound e p t s
  act-IsSound e p (rebaseline t) s = rebaseline-IsSound e p t s
  act-IsSound e p (submit remark t) s = submit-IsSound e p remark t s
  act-IsSound e p abandon s = abandon-IsSound e p s
  act-IsSound e p leave s = leave-IsSound e p s

  abbrev pub run : SuggestEngine y → List Action → SuggestEngine y
  run = foldl act

  abbrev pub unsent_of : SuggestEngine y → Unsent → List Action → Unsent
  unsent_of e p [] = p
  unsent_of e p (a ∷ rest) = unsent_of (act e a) (unsent_after e p a) rest

  run-IsSound :
      (actions : List Action) (e : SuggestEngine y) (p : Unsent)
      → IsSound e p
      → IsSound (run e actions) (unsent_of e p actions)
  run-IsSound [] e p s = s
  run-IsSound (a ∷ rest) e p s =
      run-IsSound rest (act e a) (unsent_after e p a) (act-IsSound e p a s)

  abbrev pub fresh : SuggestEngine y
  fresh = new_engine y (new_replicator y empty empty 0)

  -- After any session the outbound gate is shut exactly in Suggest Mode, outside of which there are no
  -- drafts, and the editor's document is the wire's document with the edits merged in that were made in
  -- Suggest Mode since the editor's document was last reset: the drafts of the present stay in the
  -- mode, and those of earlier stays that were left without a reset.
  pub session-IsSound :
      (actions : List Action) → IsSound (run fresh actions) (unsent_of fresh nothing actions)
  session-IsSound actions =
      run-IsSound actions fresh nothing
        (record { alive = refl; inbound = refl; gate = refl; merged = refl; idle = λ _. refl })

  -- In Suggest Mode, with a text that differs from the one at entry, `commit` returns the payload,
  -- leaves the mode, makes the editor's document a copy of the wire's, which it does not touch, and
  -- reopens the gate.
  pub commit_lem :
      (remark : Option Text) (current : Text) (e : SuggestEngine y)
      → e.enabled ≡ true
      → current ≢ e.text_at_enable
      → ((commit y remark current e).1 ≡ built (payload_of remark e.text_at_enable current))
        × ((commit y remark current e).0.enabled ≡ false)
        × ((commit y remark current e).0.collab.editor_doc ≡ e.collab.sync_doc)
        × ((commit y remark current e).0.collab.sync_doc ≡ e.collab.sync_doc)
        × ((commit y remark current e).0.collab.outbound_open ≡ true)
  unfolding commit
  commit_lem remark current e h ne =
      ground (arith, reset_editor_doc_lem y e.collab, text_eq_iff current e.text_at_enable)

  -- Outside Suggest Mode, or with the text at entry, `commit` throws and changes nothing.
  pub commit_failed :
      (remark : Option Text) (current : Text) (e : SuggestEngine y)
      → (e.enabled ≡ false) ⊎ (current ≡ e.text_at_enable)
      → (commit y remark current e).0 ≡ e
  unfolding commit
  commit_failed remark current e h = ground (arith, text_eq_iff current e.text_at_enable)
