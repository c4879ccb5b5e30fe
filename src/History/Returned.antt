-- ===== src/History/Returned.antt =====
-- Coming back from a past execution keeps a workspace well formed.
use purr.Common.{
  ◌≡◌, refl, true, false, none, some, List, [], ◌∷◌, arith, map, String, ◌===◌, is_id, find,
  includes, without, swap_id, includes-without, includes-swap_id, Distinct-without,
  Distinct-swap_id, eq_iff, Bool-cases, Option-cases, inl, inr,
}
use purr.Workspace.{
  Ui, Workspace, RequestDocument, WorkspaceDocument, a_request, a_schema, an_extension, id_of,
  find_document,
}
use purr.Workspace.Tabs.{open_document, drop_document}
use purr.Workspace.Tabs.Fits.{Fits, Fits-shown}
use purr.Workspace.Tabs.Ids.{ids, ids-drop}
use purr.Workspace.Tabs.WellFormed.{IsWellFormed, open_document-IsWellFormed}
use purr.History.{
  document_id, is_source, history_source, given_way, return_to, return_from_history, is_in_place,
}

source-known :
    (ds : List WorkspaceDocument) (h : RequestDocument) (s : WorkspaceDocument)
    → find (is_source h) ds ≡ some s
    → (includes (map id_of ds) (id_of s) ≡ true) × (is_id (document_id h) (id_of s) ≡ true)
unfolding includes
source-known [] h s e = absurd (cc)
source-known (a_request d ∷ ds) h s e = ground (arith, source-known ds h s, eq_iff d.id (id_of s))
source-known (a_schema d ∷ ds) h s e = ground (arith, source-known ds h s)
source-known (an_extension d ∷ ds) h s e = ground (arith, source-known ds h s)

find-missing :
    (ds : List WorkspaceDocument) (id : String)
    → find (λ d. id_of d === id) ds ≡ none
    → includes (map id_of ds) id ≡ false
unfolding includes
find-missing [] id e = refl
find-missing (d ∷ ds) id e = ground (arith, find-missing ds id)

-- The tabs after the source has taken the place of the past execution; none is active yet.
given_way-Fits :
    (l : List String) (ui : Ui) (id source : String)
    → Fits l ui
    → includes l source ≡ true
    → (id === source) ≡ false
    → Fits (without id l) (record ui {
      open_document_ids = swap_id id source (without source ui.open_document_ids);
      active_document_id = none;
      preview_document_id = none;
    })
given_way-Fits l ui id source f here other = record {
  once =
      Distinct-swap_id id source (without source ui.open_document_ids)
        (Distinct-without source ui.open_document_ids f.once)
        (ground (arith, includes-without source ui.open_document_ids source, eq_iff source source));
  known = λ a h. ground (
    arith,
    f.known a,
    includes-swap_id id source (without source ui.open_document_ids) a,
    includes-without source ui.open_document_ids a,
    includes-without id l a,
    eq_iff id a,
    eq_iff source a,
  );
  active = λ a h. absurd (cc);
  preview = λ a h. absurd (cc);
  cookies = f.cookies;
  variables = f.variables;
  settings = f.settings;
  single = f.single;
}

given_way-IsWellFormed :
    (w : Workspace) (id source : String)
    → IsWellFormed w
    → includes (ids w) source ≡ true
    → (id === source) ≡ false
    → IsWellFormed (open_document (given_way w id source) source)
unfolding open_document
given_way-IsWellFormed w id source f here other =
    let left = ids-drop id w.documents in
    elim (Option-cases (find_document (given_way w id source) source)) [
      | inl missing ↦ absurd (
          ground (
            arith,
            find-missing (drop_document id w.documents) source missing,
            left,
            includes-without id (ids w) source,
          ))
      | inr (d, found) ↦ rw found (record {
        distinct = rw left (Distinct-without id (ids w) f.distinct);
        named = rw left (ground (arith, includes-without id (ids w) "", f.named));
        fits = rw left (
            Fits-shown (without id (ids w)) _ source _ _
              (ground (arith, includes-without id (ids w) source))
              (given_way-Fits (ids w) w.ui id source f.fits here other));
      })
    ]

-- Going back from a past execution to the request that it came from keeps a workspace well formed (distinct
-- identifiers, open tabs that are documents and open once, active and previewed documents that are open, one
-- active utility tab at most), where the identifier of the execution's tab is not the request's.
pub return_from_history-IsWellFormed :
    (w : Workspace) (h : RequestDocument)
    → IsWellFormed w
    → is_id (document_id h) h.id ≡ false
    → IsWellFormed (return_from_history w h)
unfolding return_from_history return_to
return_from_history-IsWellFormed w h f other = elim (Option-cases (history_source w h)) [
  | inl gone ↦ rw gone f
  | inr (s, found) ↦
      let known = source-known w.documents h s found in
      rw found (elim (Bool-cases (is_in_place h)) [
        | inl here ↦ rw here (
            given_way-IsWellFormed w h.id (id_of s) f known.0
              (ground (arith, known.1, other, eq_iff h.id (id_of s))))
        | inr apart ↦ rw apart (open_document-IsWellFormed w (id_of s) f)
      ])
]
