-- ===== src/Workspace/Tabs/Shown.antt =====
-- What the workbench shows after an operation.
use purr.Common.{
  ◌≡◌, refl, sym, ◌⊎◌, Bool, true, false, ◌||◌, Option, some, List, [], ◌∷◌, ◌++◌, arith, String,
  includes, without, includes-append, includes-one, includes-without, eq_refl,
}
use mathlib.Core.Path.{subst}
use purr.Workspace.{Workspace, Ui, WorkspaceDocument, find_document}
use purr.Workspace.Tabs.{
  open_document, shown, on_found, close_document, close_workspace_tab, UtilityTab, cookies,
  variables, settings, tab_closed, closed_ui, activate_ui, utility_active, is_open,
}

-- An open document or an open utility tab is active.
abbrev pub IsShowing : Ui → Type 0
IsShowing ui = (utility_active ui || is_open ui.active_document_id ui.open_document_ids) ≡ true

-- No tab is open.
abbrev pub IsEmpty : Ui → Type 0
IsEmpty ui =
    (ui.open_document_ids ≡ [])
    × (ui.cookies_tab_open ≡ false)
    × (ui.variables_tab_open ≡ false)
    × (ui.settings_tab_open ≡ false)

activate_ui-shows :
    (ui : Ui) (l : List String)
    → ui.open_document_ids ≡ l
    → includes l "" ≡ false
    → IsShowing (activate_ui ui) ⊎ IsEmpty (activate_ui ui)
activate_ui-shows ui [] e h = ground (arith, e)
activate_ui-shows ui (x ∷ l) e h = unfold includes in ground (arith, e, eq_refl x)

-- Closing a document leaves a tab active, unless no tab is left.
pub close_document-shows :
    (w : Workspace) (id : String) (kept : Bool)
    → includes w.ui.open_document_ids "" ≡ false
    → IsShowing (close_document w id kept).ui ⊎ IsEmpty (close_document w id kept).ui
unfolding close_document
close_document-shows w id kept h =
    activate_ui-shows (closed_ui w.ui id) (without id w.ui.open_document_ids) refl
      (ground (arith, includes-without id w.ui.open_document_ids ""))

-- So does closing a utility tab.
close_workspace_tab-shows :
    (w : Workspace) (tab : UtilityTab)
    → includes w.ui.open_document_ids "" ≡ false
    → IsShowing (close_workspace_tab w tab).ui ⊎ IsEmpty (close_workspace_tab w tab).ui
unfolding close_workspace_tab
close_workspace_tab-shows w cookies h =
    activate_ui-shows (tab_closed w.ui cookies) w.ui.open_document_ids refl h
close_workspace_tab-shows w variables h =
    activate_ui-shows (tab_closed w.ui variables) w.ui.open_document_ids refl h
close_workspace_tab-shows w settings h =
    activate_ui-shows (tab_closed w.ui settings) w.ui.open_document_ids refl h

-- The document is the active tab, and the tabs of `before` are there in their order.
abbrev pub IsOpenedAt : Ui → String → Ui → Type 0
IsOpenedAt before id ui =
    (ui.active_document_id ≡ some id)
    × (utility_active ui ≡ false)
    × (includes ui.open_document_ids id ≡ true)
    × (without id ui.open_document_ids ≡ without id before.open_document_ids)

without-append_self :
    (xs : List String) (id : String) → without id (xs ++ (id ∷ [])) ≡ without id xs
unfolding without
without-append_self [] id = ground (arith, eq_refl id)
without-append_self (x ∷ xs) id = ground (arith, without-append_self xs id)

shown-IsOpenedAt :
    (w : Workspace) (id : String) (d : WorkspaceDocument) → IsOpenedAt w.ui id (shown w id d).ui
shown-IsOpenedAt w id d = (
  refl,
  ground arith,
  ground
      (arith, includes-append w.ui.open_document_ids (id ∷ []) id, includes-one id id, eq_refl id),
  ground (arith, without-append_self w.ui.open_document_ids id),
)

-- Opening a document that is there makes it the active tab, with no utility tab active; the tabs that
-- were open stay, in their order.
pub open_document-shows :
    (w : Workspace) (id : String) (d : WorkspaceDocument)
    → find_document w id ≡ some d
    → IsOpenedAt w.ui id (open_document w id).ui
unfolding open_document
open_document-shows w id d found =
    subst (λ (o : Option WorkspaceDocument). IsOpenedAt w.ui id (on_found w o (shown w id)).ui)
      (sym found) (shown-IsOpenedAt w id d)
