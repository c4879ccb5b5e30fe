-- ===== src/History.antt =====
-- src/features/history/model/history-working-copy.ts: how the tab of a past execution gives way to the
-- request that it came from.
pub mod Returned
use purr.Common.{
  ℕ, Bool, true, false, ◌&&◌, not, Option, none, some, List, [], ◌∷◌, String, ◌===◌, is_id, find,
  is_some, without, swap_id, if◌then◌else◌,
}
use purr.Workspace.{Workspace, RequestDocument, Historical, WorkspaceDocument, a_request, id_of}
use purr.Workspace.Tabs.{open_document, drop_document}

abbrev pub document_id : RequestDocument → Option String
document_id h = elim h.historical [ none ↦ none | some past ↦ some (Historical.document_id past) ]

abbrev pub is_in_place : RequestDocument → Bool
is_in_place h = elim h.historical [ none ↦ false | some past ↦ Historical.in_place past ]

abbrev pub is_source : RequestDocument → WorkspaceDocument → Bool
is_source h (a_request d) = not (is_some d.historical) && is_id (document_id h) d.id
is_source h _ = false

-- `historySource`
abbrev pub history_source : Workspace → RequestDocument → Option WorkspaceDocument
history_source w h = find (is_source h) w.documents

-- The workspace in which the source has taken the place of the tab.
abbrev pub given_way : Workspace → String → String → Workspace
given_way w id source = record w {
  documents = drop_document id w.documents;
  ui = record w.ui {
    open_document_ids = swap_id id source (without source w.ui.open_document_ids);
    preview_document_id = none;
  };
}

abbrev pub return_to : Workspace → RequestDocument → Option WorkspaceDocument → Workspace
unfolding open_document
return_to w h none = w
return_to w h (some source) =
    if is_in_place h
    then open_document (given_way w h.id (id_of source)) (id_of source)
    else open_document w (id_of source)

-- `returnFromHistory`
unfoldable pub return_from_history : Workspace → RequestDocument → Workspace
unfolding return_to
return_from_history w h = return_to w h (history_source w h)
