-- ===== src/Workspace/Tabs/Tests.antt =====
-- Runs on a workspace with two requests and a schema connection, and the theorems at work on it.
use purr.Common.{
  ◌≡◌, refl, true, false, none, some, [], ◌∷◌, arith, codes, includes, without, swap_id, index_of,
  Distinct, eq_iff, trim, All, ◌⊎◌,
}
use purr.Request.{empty_draft, create_request_auth}
use purr.Workspace.{
  Workspace, RequestDocument, SchemaDocument, a_request, a_schema, http, graphql, inherited,
  documents, is_meaningful_draft,
}
use purr.Workspace.Tabs.{
  open_document, close_document, delete_document, discard_all_drafts, reorder_open_documents,
}
use purr.Workspace.Tabs.Ids.{ids}
use purr.Workspace.Tabs.WellFormed.{IsWellFormed}
use purr.Workspace.Tabs.Session.{opens, closes, discards_all, session, session-IsWellFormed}
use purr.Workspace.Tabs.Order.{reorder_places, close_document-active}
use purr.Workspace.Tabs.Shown.{
  IsShowing, IsEmpty, IsOpenedAt, close_document-shows, open_document-shows,
}
use purr.Workspace.Tabs.Removal.{IsUnbound, delete_document-IsUnbound}
use purr.History.{return_from_history}
use purr.History.Returned.{return_from_history-IsWellFormed}

abbrev saved_one : RequestDocument
saved_one = record {
  id = "a";
  kind = http;
  name = codes "List users";
  description = none;
  folder_id = none;
  saved = true;
  response_storage = inherited;
  historical = none;
  request = record (empty_draft []) { url = codes "https://x/users" };
  saved_request = some (empty_draft []);
  sent_at = none;
}

abbrev draft_one : RequestDocument
draft_one = record saved_one {
  id = "b";
  kind = graphql;
  saved = false;
  saved_request = none;
  request = record (empty_draft []) {
    graphql = some (record {
      query = codes "{ me }";
      variables = [];
      operation_name = [];
      schema_id = some "s";
    });
  };
}

abbrev schema_one : SchemaDocument
schema_one = record {
  id = "s";
  name = codes "Users schema";
  description = none;
  folder_id = none;
  saved = true;
  source_request_id = "";
  auth = create_request_auth;
  introspection_headers = [];
  endpoint = codes "https://x/graphql";
  sdl = codes "type Query { me: ID }";
}

abbrev sample : Workspace
sample = record {
  id = "w";
  name = codes "Personal";
  default_graphql_schema_id = some "s";
  documents = a_request saved_one ∷ a_request draft_one ∷ a_schema schema_one ∷ [];
  variables = [];
  environments = [];
  active_environment_id = none;
  ui = record {
    open_document_ids = "a" ∷ "b" ∷ "s" ∷ [];
    active_document_id = some "b";
    preview_document_id = none;
    last_graphql_schema_id = some "s";
    last_request_kind = http;
    cookies_tab_open = false;
    cookies_tab_active = false;
    settings_tab_open = true;
    settings_tab_active = false;
    variables_tab_open = false;
    variables_tab_active = false;
    sidebar_open = true;
    sidebar_activity = documents;
  };
}

sample-Distinct : Distinct (ids sample)
unfolding includes
sample-Distinct = (refl, (refl, (refl, tt)))

sample-named : includes (ids sample) "" ≡ false
unfolding includes
sample-named = refl

sample-IsWellFormed : IsWellFormed sample
sample-IsWellFormed = record {
  distinct = sample-Distinct;
  named = sample-named;
  fits = record {
    once = sample-Distinct;
    known = λ a h. h;
    active = λ a h. unfold includes in ground (arith, eq_iff "b" a, eq_iff "a" a);
    preview = λ a h. absurd (cc);
    cookies = refl;
    variables = refl;
    settings = refl;
    single = refl;
  };
}

close_b : (close_document sample "b" false).ui.active_document_id ≡ some "s"
unfolding close_document includes without index_of
close_b = refl

drafts_gone : ids (discard_all_drafts sample) ≡ "a" ∷ "s" ∷ []
unfolding discard_all_drafts includes without index_of is_meaningful_draft trim
drafts_gone = refl

session-IsWellFormed_example :
    IsWellFormed (session (λ _ _. true) sample (closes "b" true ∷ opens "a" ∷ discards_all ∷ []))
session-IsWellFormed_example =
    session-IsWellFormed (λ _ _. true) sample (closes "b" true ∷ opens "a" ∷ discards_all ∷ [])
      sample-IsWellFormed

reorder_places_example :
    (index_of (reorder_open_documents sample "a" "s").ui.open_document_ids "a" ≡ some 2)
    × (without "a" (reorder_open_documents sample "a" "s").ui.open_document_ids
        ≡ without "a" sample.ui.open_document_ids)
unfolding index_of
reorder_places_example = reorder_places sample "a" "s" 0 2 sample-Distinct refl refl (omega arith)

close_document-active_example : (close_document sample "b" false).ui.active_document_id ≡ some "s"
close_document-active_example =
    close_document-active sample "b" false ("a" ∷ []) ("s" ∷ []) refl sample-Distinct sample-named
      refl

close_document-shows_example :
    IsShowing (close_document sample "b" false).ui ⊎ IsEmpty (close_document sample "b" false).ui
close_document-shows_example = close_document-shows sample "b" false sample-named

open_document-shows_example : IsOpenedAt sample.ui "s" (open_document sample "s").ui
open_document-shows_example = open_document-shows sample "s" (a_schema schema_one) refl

delete_document-IsUnbound_example :
    (ids (delete_document sample "s") ≡ without "s" (ids sample))
    × All (IsUnbound "s") (delete_document sample "s").documents
delete_document-IsUnbound_example = delete_document-IsUnbound sample "s" schema_one refl

-- A past execution of the first request, in the second tab.
abbrev past_one : RequestDocument
past_one = record saved_one {
  id = "b";
  historical = some (record { entry_id = "e"; document_id = "a"; in_place = true });
}

past-returned : (return_from_history sample past_one).ui.open_document_ids ≡ "a" ∷ "s" ∷ []
unfolding return_from_history without includes swap_id
past-returned = refl

return_from_history-IsWellFormed_example : IsWellFormed (return_from_history sample past_one)
return_from_history-IsWellFormed_example =
    return_from_history-IsWellFormed sample past_one sample-IsWellFormed refl
