-- ===== src/Workspace/Tabs/WellFormed.antt =====
-- Each operation on the tabs and the documents keeps a workspace well formed.
use purr.Common.{
  ℕ, ◌≡◌, refl, Bool, false, Option, none, some, List, [], ◌∷◌, arith, String, is_id, includes,
  without, index_of, Distinct, includes-without, Distinct-without, Bool-cases, inl, inr, nat_eq,
}
use purr.Workspace.{Workspace, Ui, WorkspaceDocument, id_of, find_document}
use purr.Workspace.Tabs.{
  open_document, pin_document, reorder_open_documents, close_workspace_tab, UtilityTab, cookies,
  variables, settings, close_document, delete_document, discard_document, shown, deleted,
  discard_each, tab_closed, on_found, discarded, reordered, is_restorable,
}
use purr.Workspace.Tabs.Fits.{
  Fits, Fits-activate, Fits-closed, Fits-shown, Fits-reordered, Fits-mono,
}
use purr.Workspace.Tabs.Ids.{
  ids, find-includes, ids-map, restored_as_at-id, ids-closed, ui-closed, without-includes,
  ids-deleted,
}

-- No two documents share an identifier, none is empty, and the tabs fit the documents.
pub record IsWellFormed (w : Workspace) : Type 0 where
  pub distinct : Distinct (ids w)
  pub named : includes (ids w) "" ≡ false
  pub fits : Fits (ids w) w.ui

pub on_found_rule :
    (P : Workspace → Type 0) (w : Workspace) (o : Option WorkspaceDocument)
    (go : WorkspaceDocument → Workspace)
    → P w
    → ((d : WorkspaceDocument) → o ≡ some d → P (go d))
    → P (on_found w o go)
on_found_rule P w none go h k = h
on_found_rule P w (some d) go h k = k d refl

pub open_document-IsWellFormed :
    (w : Workspace) (id : String) → IsWellFormed w → IsWellFormed (open_document w id)
unfolding open_document
open_document-IsWellFormed w id f =
    on_found_rule IsWellFormed w (find_document w id) (shown w id) f λ d found. record {
      distinct = f.distinct;
      named = f.named;
      fits = Fits-shown (ids w) w.ui id _ _ (find-includes w.documents id d found).0 f.fits;
    }

pub pin_document-IsWellFormed :
    (w : Workspace) (id : String) → IsWellFormed w → IsWellFormed (pin_document w id)
unfolding pin_document
pin_document-IsWellFormed w id f = elim (Bool-cases (is_id w.ui.preview_document_id id)) [
  | inl here ↦ rw here (record {
    distinct = f.distinct;
    named = f.named;
    fits = record {
      once = f.fits.once;
      known = f.fits.known;
      active = f.fits.active;
      preview = λ a p. absurd (cc);
      cookies = f.fits.cookies;
      variables = f.fits.variables;
      settings = f.fits.settings;
      single = f.fits.single;
    };
  })
  | inr other ↦ rw other f
]

pub reordered-IsWellFormed :
    (w : Workspace) (id : String) (source target : Option ℕ)
    → index_of w.ui.open_document_ids id ≡ source
    → IsWellFormed w
    → IsWellFormed (reordered w id source target)
reordered-IsWellFormed w id none target e f = f
reordered-IsWellFormed w id (some source) none e f = f
reordered-IsWellFormed w id (some source) (some target) e f =
    elim (Bool-cases (nat_eq source target)) [
      | inl same ↦ rw same f
      | inr moved ↦ rw moved (record {
        distinct = f.distinct;
        named = f.named;
        fits = Fits-reordered (ids w) w.ui id source target e f.fits;
      })
    ]

pub reorder-IsWellFormed :
    (w : Workspace) (source target : String)
    → IsWellFormed w
    → IsWellFormed (reorder_open_documents w source target)
unfolding reorder_open_documents
reorder-IsWellFormed w source target f =
    reordered-IsWellFormed w source (index_of w.ui.open_document_ids source) _ refl f

tab_closed-Fits :
    (l : List String) (ui : Ui) (tab : UtilityTab) → Fits l ui → Fits l (tab_closed ui tab)
tab_closed-Fits l ui cookies f = record {
  once = f.once;
  known = f.known;
  active = f.active;
  preview = f.preview;
  cookies = refl;
  variables = f.variables;
  settings = f.settings;
  single = ground (arith, f.single);
}
tab_closed-Fits l ui variables f = record {
  once = f.once;
  known = f.known;
  active = f.active;
  preview = f.preview;
  cookies = f.cookies;
  variables = refl;
  settings = f.settings;
  single = ground (arith, f.single);
}
tab_closed-Fits l ui settings f = record {
  once = f.once;
  known = f.known;
  active = f.active;
  preview = f.preview;
  cookies = f.cookies;
  variables = f.variables;
  settings = refl;
  single = ground (arith, f.single);
}

pub close_workspace_tab-IsWellFormed :
    (w : Workspace) (tab : UtilityTab) → IsWellFormed w → IsWellFormed (close_workspace_tab w tab)
unfolding close_workspace_tab
close_workspace_tab-IsWellFormed w tab f = record {
  distinct = f.distinct;
  named = f.named;
  fits = Fits-activate (ids w) _ (tab_closed-Fits (ids w) w.ui tab f.fits);
}

pub close_document-IsWellFormed :
    (w : Workspace) (id : String) (kept : Bool)
    → IsWellFormed w
    → IsWellFormed (close_document w id kept)
close_document-IsWellFormed w id kept f =
    let fits = Fits-activate (without id (ids w)) _ (Fits-closed (ids w) w.ui id f.fits) in
    elim (ids-closed w id kept) [
      | inl same ↦ record {
        distinct = rw same f.distinct;
        named = rw same f.named;
        fits = rw (same, ui-closed) (Fits-mono _ (ids w) _ (without-includes id (ids w)) fits);
      }
      | inr less ↦ record {
        distinct = rw less (Distinct-without id (ids w) f.distinct);
        named = rw less (ground (arith, includes-without id (ids w) "", f.named));
        fits = rw (less, ui-closed) fits;
      }
    ]

Fits-schema :
    (l : List String) (ui : Ui) (schema : Option String)
    → Fits l ui
    → Fits l (record ui { last_graphql_schema_id = schema })
Fits-schema l ui schema f = record {
  once = f.once;
  known = f.known;
  active = f.active;
  preview = f.preview;
  cookies = f.cookies;
  variables = f.variables;
  settings = f.settings;
  single = f.single;
}

pub delete_document-IsWellFormed :
    (w : Workspace) (id : String) → IsWellFormed w → IsWellFormed (delete_document w id)
unfolding delete_document
delete_document-IsWellFormed w id f =
    on_found_rule IsWellFormed w (find_document w id) (deleted w id) f λ d found. record {
      distinct = rw ids-deleted (Distinct-without id (ids w) f.distinct);
      named = rw ids-deleted (ground (arith, includes-without id (ids w) "", f.named));
      fits = rw ids-deleted (
          Fits-schema _ _ _
            (Fits-activate (without id (ids w)) _ (Fits-closed (ids w) w.ui id f.fits)));
    }

pub discard_document-IsWellFormed :
    (w : Workspace) (id : String) → IsWellFormed w → IsWellFormed (discard_document w id)
unfolding discard_document
discard_document-IsWellFormed w id f =
    on_found_rule IsWellFormed w (find_document w id) (discarded w id) f λ d found.
      elim (Bool-cases (is_restorable d)) [
        | inl back ↦ rw back (record {
          distinct = rw (ids-map _ w.documents (restored_as_at-id d id)) f.distinct;
          named = rw (ids-map _ w.documents (restored_as_at-id d id)) f.named;
          fits = rw (ids-map _ w.documents (restored_as_at-id d id)) f.fits;
        })
        | inr gone ↦ rw gone (delete_document-IsWellFormed w id f)
      ]

pub discard_each-IsWellFormed :
    (w : Workspace) (ds : List WorkspaceDocument)
    → IsWellFormed w
    → IsWellFormed (discard_each w ds)
discard_each-IsWellFormed w [] f = f
discard_each-IsWellFormed w (d ∷ ds) f =
    discard_each-IsWellFormed (discard_document w (id_of d)) ds
      (discard_document-IsWellFormed w (id_of d) f)
