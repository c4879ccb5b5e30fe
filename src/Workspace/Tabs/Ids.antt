-- ===== src/Workspace/Tabs/Ids.antt =====
-- The identifiers of the documents, and what each operation leaves of them.
use purr.Common.{
  ◌⊎◌, ◌≡◌, refl, ◌∙◌, ap, Bool, true, ◌&&◌, not, some, List, [], ◌∷◌, map, arith, String, ◌===◌,
  includes, without, find, if◌then◌else◌, includes-without, eq_iff, Bool-cases, inl, inr,
}
use purr.Workspace.{
  Workspace, WorkspaceDocument, a_request, a_schema, an_extension, id_of, find_document,
}
use purr.Workspace.Tabs.{
  close_document, restore, restored, restored_as, drop_document, detach_document, deleted,
  closed_ui, activate_ui, is_ephemeral,
}

abbrev pub ids : Workspace → List String
ids w = map id_of w.documents

pub find-includes :
    (ds : List WorkspaceDocument) (id : String) (d : WorkspaceDocument)
    → find (λ e. id_of e === id) ds ≡ some d
    → (includes (map id_of ds) id ≡ true) × (id_of d ≡ id)
unfolding includes
find-includes [] id d h = absurd (cc)
find-includes (e ∷ ds) id d h = ground (arith, find-includes ds id d, eq_iff (id_of e) id)

pub ids-map :
    (f : WorkspaceDocument → WorkspaceDocument) (ds : List WorkspaceDocument)
    → ((d : WorkspaceDocument) → id_of (f d) ≡ id_of d)
    → map id_of (map f ds) ≡ map id_of ds
ids-map f [] h = refl
ids-map f (d ∷ ds) h = cc (h d, ids-map f ds h)

pub restored-id : (d : WorkspaceDocument) → id_of (restored d) ≡ id_of d
restored-id (a_request d) = ground arith
restored-id (a_schema d) = refl
restored-id (an_extension d) = ground arith

pub restored_as-id : (d e : WorkspaceDocument) → id_of (restored_as d e) ≡ id_of e
restored_as-id (a_request d) (a_request e) = restored-id (a_request e)
restored_as-id (an_extension d) (an_extension e) = restored-id (an_extension e)
restored_as-id (a_schema d) e = refl
restored_as-id (a_request d) (a_schema e) = refl
restored_as-id (a_request d) (an_extension e) = refl
restored_as-id (an_extension d) (a_request e) = refl
restored_as-id (an_extension d) (a_schema e) = refl

pub restore-id : (id : String) (d : WorkspaceDocument) → id_of (restore id d) ≡ id_of d
restore-id id d = ground (arith, restored-id d)

detach-id : (d e : WorkspaceDocument) → id_of (detach_document d e) ≡ id_of e
detach-id (a_schema s) (a_request e) = ground arith
detach-id (a_schema s) (a_schema e) = refl
detach-id (a_schema s) (an_extension e) = refl
detach-id (a_request d) e = refl
detach-id (an_extension d) e = refl

pub ids-drop :
    (id : String) (ds : List WorkspaceDocument)
    → map id_of (drop_document id ds) ≡ without id (map id_of ds)
unfolding without
ids-drop id [] = refl
ids-drop id (d ∷ ds) = ground (arith, ids-drop id ds)

pub restored_as_at-id :
    (d : WorkspaceDocument) (id : String) (e : WorkspaceDocument)
    → id_of (if id_of e === id then restored_as d e else e) ≡ id_of e
restored_as_at-id d id e = ground (arith, restored_as-id d e)

pub ids-closed :
    (w : Workspace) (id : String) (kept : Bool)
    → (ids (close_document w id kept) ≡ ids w)
      ⊎ (ids (close_document w id kept) ≡ without id (ids w))
unfolding close_document
ids-closed w id kept = elim (Bool-cases (not kept && is_ephemeral (find_document w id))) [
  | inl gone ↦ rw gone (inr (ids-drop id w.documents))
  | inr stays ↦ rw stays (inl (ids-map (restore id) w.documents (restore-id id)))
]

pub ui-closed :
    (w : Workspace) (id : String) (kept : Bool)
    → (close_document w id kept).ui ≡ activate_ui (closed_ui w.ui id)
unfolding close_document
ui-closed w id kept = refl

pub without-includes :
    (id : String) (xs : List String) (a : String)
    → includes (without id xs) a ≡ true
    → includes xs a ≡ true
without-includes id xs a h = ground (arith, includes-without id xs a)

pub ids-deleted :
    (w : Workspace) (id : String) (d : WorkspaceDocument)
    → ids (deleted w id d) ≡ without id (ids w)
ids-deleted w id d =
    ids-map (detach_document d) _ (detach-id d)
    ∙ ids-drop id _
    ∙ ap (without id) (unfold close_document in ids-map (restore id) w.documents (restore-id id))
