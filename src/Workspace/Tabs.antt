-- ===== src/Workspace/Tabs.antt =====
-- src/features/workspaces/model/workspace.ts: opening, closing, ordering and removing the documents of a
-- workspace.
pub mod Fits
pub mod Ids
pub mod WellFormed
pub mod Session
pub mod Order
pub mod Shown
pub mod Removal
pub mod Drafts
mod Tests
use purr.Common.{
  ℕ, zero, suc, ◌-◌, Bool, true, false, ◌&&◌, ◌||◌, not, Option, none, some, List, [], ◌∷◌, ◌++◌,
  map, String, ◌===◌, is_id, includes, without, swap_id, index_of, splice_in, splice_out, get_elem?,
  head?, length, keep, if◌then◌else◌, is_some, nat_eq,
}
use Prim.Native.Nat.{min}
use purr.Request.{RequestDraft, schema_id, detach_graphql_schema}
use purr.Workspace.{
  Workspace, Ui, WorkspaceDocument, a_request, a_schema, an_extension, SchemaDocument, RequestKind,
  id_of, is_saved, find_document, is_historical, is_meaningful_draft, is_document_dirty,
}

-- The schema that opening a document makes the last one: itself, or that of a GraphQL request if it
-- names one.
abbrev pub schema_of : WorkspaceDocument → Option String
schema_of (a_schema d) = some d.id
schema_of (an_extension d) = none
schema_of (a_request d) = elim (schema_id d.request) [
  | none ↦ none
  | some s ↦ if s === "" then none else some s
]

abbrev pub or_kind : WorkspaceDocument → RequestKind → RequestKind
or_kind (a_request d) kind = d.kind
or_kind _ kind = kind

abbrev pub or_schema : Option String → Option String → Option String
or_schema none old = old
or_schema (some s) old = some s

-- `ids.includes(id) ? ids : [...ids, id]`
abbrev pub with_id : List String → String → List String
with_id ids id = if includes ids id then ids else ids ++ (id ∷ [])

-- `openDocument`, of a document that was found.
abbrev pub shown : Workspace → String → WorkspaceDocument → Workspace
shown w id d = record w {
  ui = record w.ui {
    open_document_ids = with_id w.ui.open_document_ids id;
    last_graphql_schema_id = or_schema (schema_of d) w.ui.last_graphql_schema_id;
    active_document_id = some id;
    cookies_tab_active = false;
    settings_tab_active = false;
    variables_tab_active = false;
    last_request_kind = or_kind d w.ui.last_request_kind;
  };
}

-- An operation on a document does nothing where the document is not found.
abbrev pub on_found :
    Workspace → Option WorkspaceDocument → (WorkspaceDocument → Workspace) → Workspace
on_found w none go = w
on_found w (some d) go = go d

unfoldable pub open_document : Workspace → String → Workspace
open_document w id = on_found w (find_document w id) (shown w id)

unfoldable pub pin_document : Workspace → String → Workspace
pin_document w id =
    if is_id w.ui.preview_document_id id
    then record w { ui = record w.ui { preview_document_id = none } }
    else w

abbrev pub unless : Option String → String → Option String
unless preview id = if is_id preview id then none else preview

abbrev reordered : Workspace → String → Option ℕ → Option ℕ → Workspace
reordered w source_id none target = w
reordered w source_id (some source) none = w
reordered w source_id (some source) (some target) = if nat_eq source target then w else record w {
  ui = record w.ui {
    open_document_ids = splice_in target source_id (splice_out source w.ui.open_document_ids);
    preview_document_id = unless w.ui.preview_document_id source_id;
  };
}

unfoldable pub reorder_open_documents : Workspace → String → String → Workspace
reorder_open_documents w source_id target_id =
    reordered w source_id (index_of w.ui.open_document_ids source_id)
      (index_of w.ui.open_document_ids target_id)

-- `ui.activeDocumentId && ui.openDocumentIds.includes(ui.activeDocumentId)`
abbrev pub is_open : Option String → List String → Bool
is_open none ids = false
is_open (some a) ids = not (a === "") && includes ids a

abbrev pub utility_active : Ui → Bool
utility_active ui =
    (ui.cookies_tab_open && ui.cookies_tab_active)
    || (ui.variables_tab_open && ui.variables_tab_active)
    || (ui.settings_tab_open && ui.settings_tab_active)

-- `!activeDocumentId`
abbrev pub no_id : Option String → Bool
no_id none = true
no_id (some a) = a === ""

abbrev pub remaining_ui : Ui → Ui
remaining_ui ui =
    let first = head? ui.open_document_ids in
    let cookies = no_id first && ui.cookies_tab_open in
    let variables = no_id first && not cookies && ui.variables_tab_open in
    record ui {
      active_document_id = first;
      cookies_tab_active = cookies;
      settings_tab_active = no_id first && not cookies && not variables && ui.settings_tab_open;
      variables_tab_active = variables;
    }

abbrev pub activate_ui : Ui → Ui
activate_ui ui =
    if utility_active ui || is_open ui.active_document_id ui.open_document_ids
    then ui
    else remaining_ui ui

unfoldable pub activate_remaining_tab : Workspace → Workspace
activate_remaining_tab w = record w { ui = activate_ui w.ui }

pub data UtilityTab : Type 0 where
  cookies variables settings : UtilityTab

abbrev pub tab_closed : Ui → UtilityTab → Ui
tab_closed ui cookies = record ui { cookies_tab_open = false; cookies_tab_active = false }
tab_closed ui variables = record ui { variables_tab_open = false; variables_tab_active = false }
tab_closed ui settings = record ui { settings_tab_open = false; settings_tab_active = false }

unfoldable pub close_workspace_tab : Workspace → UtilityTab → Workspace
unfolding activate_remaining_tab
close_workspace_tab w tab = activate_remaining_tab (record w { ui = tab_closed w.ui tab })

-- A saved document goes back to its snapshot, where it has one.
abbrev pub restored : WorkspaceDocument → WorkspaceDocument
restored (a_request d) = elim d.saved_request [
  | none ↦ a_request d
  | some r ↦ a_request (record d { request = r })
]
restored (a_schema d) = a_schema d
restored (an_extension d) = elim d.saved_config [
  | none ↦ an_extension d
  | some config ↦ elim d.saved_config_version [
    | none ↦ an_extension d
    | some version ↦
        if nat_eq version 0
        then an_extension d
        else an_extension (record d { config_version = version; config = config })
  ]
]

abbrev pub restore : String → WorkspaceDocument → WorkspaceDocument
restore id d = if id_of d === id && is_saved d then restored d else d

abbrev pub drop_document : String → List WorkspaceDocument → List WorkspaceDocument
drop_document id ds = keep (λ d. not (id_of d === id)) ds

-- Closing removes a historical tab, and an unsaved draft that is not worth keeping.
abbrev pub is_ephemeral : Option WorkspaceDocument → Bool
is_ephemeral none = false
is_ephemeral (some d) = is_historical d || (not (is_saved d) && not (is_meaningful_draft d))

-- `openDocumentIds[Math.min(index, openDocumentIds.length - 1)] ?? null`
abbrev pub neighbour : Option ℕ → List String → Option String
neighbour none ids = none
neighbour (some i) ids = get_elem? ids (min i (length ids - 1))

abbrev pub closed_ui : Ui → String → Ui
closed_ui ui id =
    let ids = without id ui.open_document_ids in
    record ui {
      open_document_ids = ids;
      active_document_id =
          if is_id ui.active_document_id id
          then neighbour (index_of ui.open_document_ids id) ids
          else ui.active_document_id;
      preview_document_id = unless ui.preview_document_id id;
    }

unfoldable pub close_document : Workspace → String → Bool → Workspace
unfolding activate_remaining_tab
close_document w id keep_document =
    let ephemeral = not keep_document && is_ephemeral (find_document w id) in
    activate_remaining_tab (record w {
      documents = if ephemeral then drop_document id w.documents else map (restore id) w.documents;
      ui = closed_ui w.ui id;
    })

-- A request that is bound to the schema is detached from it.
abbrev pub detach : SchemaDocument → RequestDraft → RequestDraft
detach s r =
    if is_id (schema_id r) s.id
    then detach_graphql_schema r (some (record { endpoint = s.endpoint; auth = s.auth }))
    else r

abbrev pub detach_saved : SchemaDocument → Option RequestDraft → Option RequestDraft
detach_saved s none = none
detach_saved s (some r) = some (detach s r)

abbrev pub detach_document : WorkspaceDocument → WorkspaceDocument → WorkspaceDocument
detach_document (a_schema s) (a_request d) =
    if is_some d.historical
    then a_request d
    else a_request
        (record d { request = detach s d.request; saved_request = detach_saved s d.saved_request })
detach_document _ d = d

abbrev pub deleted : Workspace → String → WorkspaceDocument → Workspace
deleted w id d =
    let without_document = close_document w id true in
    record without_document {
      default_graphql_schema_id = unless w.default_graphql_schema_id id;
      documents = map (detach_document d) (drop_document id without_document.documents);
      ui = record without_document.ui {
        last_graphql_schema_id = unless w.ui.last_graphql_schema_id id;
      };
    }

unfoldable pub delete_document : Workspace → String → Workspace
unfolding close_document
delete_document w id = on_found w (find_document w id) (deleted w id)

-- What `discardDocument` does to a document of the kind of the one that it was called for.
abbrev pub restored_as : WorkspaceDocument → WorkspaceDocument → WorkspaceDocument
restored_as (a_request _) (a_request e) = restored (a_request e)
restored_as (an_extension _) (an_extension e) = restored (an_extension e)
restored_as _ e = e

-- Whether `discardDocument` restores a document rather than deleting it.
abbrev pub is_restorable : WorkspaceDocument → Bool
is_restorable (a_request d) = d.saved && is_some d.saved_request
is_restorable (a_schema d) = false
is_restorable (an_extension d) =
    d.saved
    && is_some d.saved_config
    && elim d.saved_config_version [ none ↦ false | some version ↦ not (nat_eq version 0) ]

abbrev pub discarded : Workspace → String → WorkspaceDocument → Workspace
discarded w id d =
    if is_restorable d
    then record w {
      documents = map (λ e. if id_of e === id then restored_as d e else e) w.documents;
    }
    else delete_document w id

unfoldable pub discard_document : Workspace → String → Workspace
unfolding delete_document
discard_document w id = on_found w (find_document w id) (discarded w id)

-- The drafts that `discardAllDrafts` goes through, of the workspace that it is given.
abbrev pub is_draft : WorkspaceDocument → Bool
is_draft d = not (is_saved d) && is_meaningful_draft d

abbrev pub discard_each : Workspace → List WorkspaceDocument → Workspace
discard_each w [] = w
discard_each w (d ∷ ds) = discard_each (discard_document w (id_of d)) ds

unfoldable pub discard_all_drafts : Workspace → Workspace
unfolding discard_document
discard_all_drafts w = discard_each w (keep is_draft w.documents)

module _ (same_definition : RequestDraft → RequestDraft → Bool) where
  -- The preview tab that a new preview may take the place of.
  abbrev pub replaceable : Workspace → Option String → Option WorkspaceDocument
  replaceable w none = none
  replaceable w (some p) = elim (find_document w p) [
    | none ↦ none
    | some d ↦
        if is_saved d
          && not (is_document_dirty same_definition d)
          && includes w.ui.open_document_ids (id_of d)
        then some d
        else none
  ]

  abbrev pub preview_ids : Workspace → String → Option WorkspaceDocument → List String
  preview_ids w id none = w.ui.open_document_ids ++ (id ∷ [])
  preview_ids w id (some p) = swap_id (id_of p) id w.ui.open_document_ids

  abbrev pub previewed : Workspace → String → WorkspaceDocument → Workspace
  previewed w id d =
      if includes w.ui.open_document_ids id
        || not (is_saved d)
        || is_document_dirty same_definition d
      then open_document w id
      else record w {
        ui = record w.ui {
          open_document_ids = preview_ids w id (replaceable w w.ui.preview_document_id);
          active_document_id = some id;
          preview_document_id = some id;
          cookies_tab_active = false;
          settings_tab_active = false;
          variables_tab_active = false;
          last_request_kind = or_kind d w.ui.last_request_kind;
        };
      }

  unfoldable pub preview_document : Workspace → String → Workspace
  unfolding open_document
  preview_document w id = on_found w (find_document w id) (previewed w id)
