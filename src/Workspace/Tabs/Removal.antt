-- ===== src/Workspace/Tabs/Removal.antt =====
-- What deleting and discarding remove.
use purr.Common.{
  ◌≡◌, refl, sym, inl, inr, false, Option, none, some, List, [], ◌∷◌, map, arith, String, ◌===◌,
  is_id, includes, without, find, is_some, All, without_of_absent, eq_iff, Bool-cases,
}
use mathlib.Core.Path.{subst}
use purr.Request.{RequestDraft, schema_id, detach_graphql_schema}
use purr.Workspace.{
  Workspace, WorkspaceDocument, SchemaDocument, a_request, a_schema, an_extension, id_of,
  find_document,
}
use purr.Workspace.Tabs.{on_found, delete_document, deleted, detach, detach_saved, detach_document}
use purr.Workspace.Tabs.Ids.{ids, ids-deleted}

-- No request that is not historical names the schema, nor does its saved snapshot.
abbrev pub IsUnbound : String → WorkspaceDocument → Type 0
IsUnbound id (a_request d) =
    (is_some d.historical ≡ false)
    → (is_id (schema_id d.request) id ≡ false)
      × ((r : RequestDraft) → d.saved_request ≡ some r → is_id (schema_id r) id ≡ false)
IsUnbound id (a_schema d) = Unit
IsUnbound id (an_extension d) = Unit

detach-unbound :
    (s : SchemaDocument) (r : RequestDraft) → is_id (schema_id (detach s r)) s.id ≡ false
unfolding detach_graphql_schema
detach-unbound s r = ground arith

detach_saved-unbound :
    (s : SchemaDocument) (o : Option RequestDraft) (r : RequestDraft)
    → detach_saved s o ≡ some r
    → is_id (schema_id r) s.id ≡ false
detach_saved-unbound s none r h = absurd (cc)
detach_saved-unbound s (some q) r h =
    let e : detach s q ≡ r = cc h in
    subst (λ (t : RequestDraft). is_id (schema_id t) s.id ≡ false) e (detach-unbound s q)

detach_document-IsUnbound :
    (s : SchemaDocument) (d : WorkspaceDocument) → IsUnbound s.id (detach_document (a_schema s) d)
detach_document-IsUnbound s (a_schema d) = tt
detach_document-IsUnbound s (an_extension d) = tt
detach_document-IsUnbound s (a_request d) = elim (Bool-cases (is_some d.historical)) [
  | inl past ↦ rw past (λ h. absurd (cc))
  | inr live ↦ rw live (λ h. (detach-unbound s d.request, detach_saved-unbound s d.saved_request))
]

map-IsUnbound :
    (s : SchemaDocument) (ds : List WorkspaceDocument)
    → All (IsUnbound s.id) (map (detach_document (a_schema s)) ds)
map-IsUnbound s [] = tt
map-IsUnbound s (d ∷ ds) = (detach_document-IsUnbound s d, map-IsUnbound s ds)

find-id :
    (ds : List WorkspaceDocument) (id : String) (d : WorkspaceDocument)
    → find (λ e. id_of e === id) ds ≡ some d
    → id_of d ≡ id
find-id [] id d h = absurd (cc)
find-id (e ∷ ds) id d h = ground (arith, find-id ds id d, eq_iff (id_of e) id)

find-absent :
    (ds : List WorkspaceDocument) (id : String)
    → find (λ e. id_of e === id) ds ≡ none
    → includes (map id_of ds) id ≡ false
unfolding includes
find-absent [] id h = refl
find-absent (e ∷ ds) id h = ground (arith, find-absent ds id)

-- Deleting a document removes it and no other.
pub ids-delete : (w : Workspace) (id : String) → ids (delete_document w id) ≡ without id (ids w)
unfolding delete_document
ids-delete w id = go (find_document w id) refl
  where
    go :
        (o : Option WorkspaceDocument)
        → find_document w id ≡ o
        → ids (on_found w o (deleted w id)) ≡ without id (ids w)
    go none e = sym (without_of_absent id (ids w) (find-absent w.documents id e))
    go (some d) e = ids-deleted w id d

-- Deleting a schema connection removes it and no other document, and afterwards no request that is not
-- historical is bound to it, neither the draft nor its saved snapshot.
pub delete_document-IsUnbound :
    (w : Workspace) (id : String) (s : SchemaDocument)
    → find_document w id ≡ some (a_schema s)
    → (ids (delete_document w id) ≡ without id (ids w))
      × All (IsUnbound id) (delete_document w id).documents
delete_document-IsUnbound w id s found = (
  ids-delete w id,
  unfold delete_document in
      subst
        (λ (o : Option WorkspaceDocument).
          All (IsUnbound id) (on_found w o (deleted w id)).documents)
        (sym found)
        (subst (λ (j : String). All (IsUnbound j) (deleted w id (a_schema s)).documents)
          (find-id w.documents id (a_schema s) found) (map-IsUnbound s _)),
)
