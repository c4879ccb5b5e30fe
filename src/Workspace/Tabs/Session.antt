-- ===== src/Workspace/Tabs/Session.antt =====
-- Any sequence of operations on the tabs and the documents keeps a workspace well formed.
use purr.Common.{
  ◌≡◌, refl, Bool, true, false, ◌||◌, not, Option, none, some, List, [], ◌∷◌, arith, String,
  includes, Distinct, keep, includes-append, includes-one, includes-swap_id, Distinct-append_one,
  Distinct-swap_id, eq_iff, eq_refl, Bool-cases, Option-cases, inl, inr,
}
use purr.Request.{RequestDraft}
use purr.Workspace.{Workspace, WorkspaceDocument, id_of, is_saved, find_document, is_document_dirty}
use purr.Workspace.Tabs.{
  open_document, preview_document, pin_document, reorder_open_documents, close_workspace_tab,
  UtilityTab, close_document, delete_document, discard_document, discard_all_drafts, replaceable,
  preview_ids, previewed, is_draft,
}
use purr.Workspace.Tabs.Fits.{Fits-previewed}
use purr.Workspace.Tabs.Ids.{ids, find-includes}
use purr.Workspace.Tabs.WellFormed.{
  IsWellFormed, on_found_rule, open_document-IsWellFormed, pin_document-IsWellFormed,
  reorder-IsWellFormed, close_workspace_tab-IsWellFormed, close_document-IsWellFormed,
  delete_document-IsWellFormed, discard_document-IsWellFormed, discard_each-IsWellFormed,
}

module _ (same_definition : RequestDraft → RequestDraft → Bool) where
  replaceable-open :
      (w : Workspace) (o : Option String) (p : WorkspaceDocument)
      → replaceable same_definition w o ≡ some p
      → includes w.ui.open_document_ids (id_of p) ≡ true
  replaceable-open w none p h = absurd (cc)
  replaceable-open w (some q) p h = elim (Option-cases (find_document w q)) [
    | inl missing ↦ absurd (ground (arith, missing))
    | inr (d, found) ↦ ground (arith, found)
  ]

  preview_ids-fit :
      (w : Workspace) (id : String) (r : Option WorkspaceDocument)
      → ((p : WorkspaceDocument) → r ≡ some p → includes w.ui.open_document_ids (id_of p) ≡ true)
      → IsWellFormed w
      → includes (ids w) id ≡ true
      → includes w.ui.open_document_ids id ≡ false
      → Distinct (preview_ids same_definition w id r)
        × ((a : String)
            → includes (preview_ids same_definition w id r) a ≡ true
            → includes (ids w) a ≡ true)
        × (includes (preview_ids same_definition w id r) id ≡ true)
  preview_ids-fit w id none o f here new = (
    Distinct-append_one w.ui.open_document_ids id f.fits.once new,
    λ a p. ground (
      arith,
      f.fits.known a,
      includes-append w.ui.open_document_ids (id ∷ []) a,
      includes-one id a,
      eq_iff id a,
    ),
    ground (
      arith,
      includes-append w.ui.open_document_ids (id ∷ []) id,
      includes-one id id,
      eq_refl id,
    ),
  )
  preview_ids-fit w id (some p) o f here new = (
    Distinct-swap_id (id_of p) id w.ui.open_document_ids f.fits.once new,
    λ a q. ground (
      arith,
      f.fits.known a,
      includes-swap_id (id_of p) id w.ui.open_document_ids a,
      eq_iff id a,
    ),
    ground (arith, includes-swap_id (id_of p) id w.ui.open_document_ids id, eq_refl id, o p refl),
  )

  preview_document-IsWellFormed :
      (w : Workspace) (id : String)
      → IsWellFormed w
      → IsWellFormed (preview_document same_definition w id)
  unfolding preview_document
  preview_document-IsWellFormed w id f =
      on_found_rule IsWellFormed w (find_document w id) (previewed same_definition w id) f
        λ d found.
          elim (Bool-cases (
            includes w.ui.open_document_ids id
            || not (is_saved d)
            || is_document_dirty same_definition d)) [
              | inl plain ↦ rw plain (open_document-IsWellFormed w id f)
              | inr fresh ↦
                  let (once, known, here) =
                    preview_ids-fit w id (replaceable same_definition w w.ui.preview_document_id)
                      (replaceable-open w w.ui.preview_document_id) f
                      (find-includes w.documents id d found).0 (ground arith) in
                  rw fresh (record {
                    distinct = f.distinct;
                    named = f.named;
                    fits = Fits-previewed (ids w) w.ui id _ _ f.fits once known here;
                  })
            ]

-- What a user does to the tabs and the documents.
pub data Action : Type 0 where
  opens previews pins deletes discards : String → Action
  reorders : String → String → Action
  closes : String → Bool → Action
  closes_tab : UtilityTab → Action
  discards_all : Action

module _ (same_definition : RequestDraft → RequestDraft → Bool) where
  abbrev pub perform : Workspace → Action → Workspace
  perform w (opens id) = open_document w id
  perform w (previews id) = preview_document same_definition w id
  perform w (pins id) = pin_document w id
  perform w (deletes id) = delete_document w id
  perform w (discards id) = discard_document w id
  perform w (reorders source target) = reorder_open_documents w source target
  perform w (closes id kept) = close_document w id kept
  perform w (closes_tab tab) = close_workspace_tab w tab
  perform w discards_all = discard_all_drafts w

  abbrev pub session : Workspace → List Action → Workspace
  session w [] = w
  session w (a ∷ actions) = session (perform w a) actions

  perform-IsWellFormed : (w : Workspace) (a : Action) → IsWellFormed w → IsWellFormed (perform w a)
  perform-IsWellFormed w (opens id) f = open_document-IsWellFormed w id f
  perform-IsWellFormed w (previews id) f = preview_document-IsWellFormed same_definition w id f
  perform-IsWellFormed w (pins id) f = pin_document-IsWellFormed w id f
  perform-IsWellFormed w (deletes id) f = delete_document-IsWellFormed w id f
  perform-IsWellFormed w (discards id) f = discard_document-IsWellFormed w id f
  perform-IsWellFormed w (reorders source target) f = reorder-IsWellFormed w source target f
  perform-IsWellFormed w (closes id kept) f = close_document-IsWellFormed w id kept f
  perform-IsWellFormed w (closes_tab tab) f = close_workspace_tab-IsWellFormed w tab f
  perform-IsWellFormed w discards_all f =
      unfold discard_all_drafts in discard_each-IsWellFormed w (keep is_draft w.documents) f

-- Whatever is opened, previewed, pinned, reordered, closed, deleted and discarded, in any order: the
-- documents keep distinct identifiers, the open tabs are documents and each is open once, the active and
-- the previewed document are open, and at most one utility tab is active, which is open.
pub session-IsWellFormed :
    (same_definition : RequestDraft → RequestDraft → Bool) (w : Workspace) (actions : List Action)
    → IsWellFormed w
    → IsWellFormed (session same_definition w actions)
session-IsWellFormed same_definition w [] f = f
session-IsWellFormed same_definition w (a ∷ actions) f =
    session-IsWellFormed same_definition (perform same_definition w a) actions
      (perform-IsWellFormed same_definition w a f)
