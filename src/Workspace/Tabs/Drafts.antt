-- ===== src/Workspace/Tabs/Drafts.antt =====
-- What discarding all drafts removes.
use purr.Common.{
  ◌≡◌, refl, ◌∙◌, ap, inl, inr, Bool, true, false, not, Option, none, some, List, [], ◌∷◌, map,
  arith, String, ◌===◌, includes, without, Distinct, find, keep, All, All-map, All-keep, All-mono,
  All-zip, without_of_absent, eq_iff, eq_refl, Bool-cases,
}
use purr.Workspace.{
  Workspace, WorkspaceDocument, a_request, a_schema, an_extension, id_of, is_saved, find_document,
}
use purr.Workspace.Tabs.{
  on_found, delete_document, deleted, detach_document, discard_document, discarded, discard_each,
  discard_all_drafts, is_draft, is_restorable, restore, restored,
}
use purr.Workspace.Tabs.Ids.{ids, restore-id}
use purr.Workspace.Tabs.Removal.{ids-delete}

-- Each document of that identifier is unsaved.
abbrev IsUnsaved : String → WorkspaceDocument → Type 0
IsUnsaved id d = (id_of d === id) ≡ true → is_saved d ≡ false

not-restorable : (d : WorkspaceDocument) → is_saved d ≡ false → is_restorable d ≡ false
not-restorable (a_request d) h = ground arith
not-restorable (a_schema d) h = refl
not-restorable (an_extension d) h = ground arith

find-IsUnsaved :
    (ds : List WorkspaceDocument) (id : String) (d : WorkspaceDocument)
    → All (IsUnsaved id) ds
    → find (λ e. id_of e === id) ds ≡ some d
    → is_saved d ≡ false
find-IsUnsaved [] id d u h = absurd (cc)
find-IsUnsaved (e ∷ ds) id d (u, us) h = ground (arith, u, find-IsUnsaved ds id d us)

-- Discarding an unsaved document deletes it.
discard-unsaved :
    (w : Workspace) (id : String)
    → All (IsUnsaved id) w.documents
    → discard_document w id ≡ delete_document w id
unfolding discard_document delete_document
discard-unsaved w id u = go (find_document w id) refl
  where
    go :
        (o : Option WorkspaceDocument)
        → find_document w id ≡ o
        → on_found w o (discarded w id) ≡ on_found w o (deleted w id)
    go none e = refl
    go (some d) e =
        rw (not-restorable d (find-IsUnsaved w.documents id d u e))
          (ap (λ (o : Option WorkspaceDocument). on_found w o (deleted w id)) e)

restored-saved : (d : WorkspaceDocument) → is_saved (restored d) ≡ is_saved d
restored-saved (a_request d) = ground arith
restored-saved (a_schema d) = refl
restored-saved (an_extension d) = ground arith

restore-IsUnsaved :
    (id j : String) (d : WorkspaceDocument) → IsUnsaved id d → IsUnsaved id (restore j d)
restore-IsUnsaved id j d u h = ground (arith, u, restored-saved d, restore-id j d)

detach-IsUnsaved :
    (id : String) (d e : WorkspaceDocument) → IsUnsaved id e → IsUnsaved id (detach_document d e)
detach-IsUnsaved id (a_schema s) (a_request e) u h = ground (arith, u)
detach-IsUnsaved id (a_schema s) (a_schema e) u h = u h
detach-IsUnsaved id (a_schema s) (an_extension e) u h = u h
detach-IsUnsaved id (a_request d) e u h = u h
detach-IsUnsaved id (an_extension d) e u h = u h

delete-IsUnsaved :
    (w : Workspace) (id j : String)
    → All (IsUnsaved id) w.documents
    → All (IsUnsaved id) (delete_document w j).documents
unfolding delete_document
delete-IsUnsaved w id j u = go (find_document w j)
  where
    go : (o : Option WorkspaceDocument) → All (IsUnsaved id) (on_found w o (deleted w j)).documents
    go none = u
    go (some d) =
        All-map (IsUnsaved id) (IsUnsaved id) (detach_document d) (detach-IsUnsaved id d) _ (
          All-keep (IsUnsaved id) _ _ (
            All-map (IsUnsaved id) (IsUnsaved id) (restore j) (restore-IsUnsaved id j) w.documents
              u))

-- `ids` without each of `gone`.
abbrev without_all : List String → List String → List String
without_all [] ids = ids
without_all (x ∷ gone) ids = without_all gone (without x ids)

abbrev AreUnsaved : Workspace → List WorkspaceDocument → Type 0
AreUnsaved w ds = All (λ d. All (IsUnsaved (id_of d)) w.documents) ds

ids-discard_each :
    (w : Workspace) (ds : List WorkspaceDocument)
    → AreUnsaved w ds
    → ids (discard_each w ds) ≡ without_all (map id_of ds) (ids w)
ids-discard_each w [] u = refl
ids-discard_each w (d ∷ ds) (u, us) =
    let next : discard_document w (id_of d) ≡ delete_document w (id_of d) =
      discard-unsaved w (id_of d) u in
    ap (λ (v : Workspace). ids (discard_each v ds)) next
    ∙ ids-discard_each (delete_document w (id_of d)) ds
        (All-mono _ _ (λ e h. delete-IsUnsaved w (id_of e) (id_of d) h) ds us)
    ∙ ap (without_all (map id_of ds)) (ids-delete w (id_of d))

without_all-nil : (gone : List String) → without_all gone [] ≡ []
unfolding without
without_all-nil [] = refl
without_all-nil (x ∷ gone) = without_all-nil gone

without_all-cons :
    (gone : List String) (x : String) (xs : List String)
    → includes gone x ≡ false
    → without_all gone (x ∷ xs) ≡ x ∷ without_all gone xs
unfolding without includes
without_all-cons [] x xs h = refl
without_all-cons (y ∷ gone) x xs h =
    ap (without_all gone)
      (let e : without y (x ∷ xs) ≡ x ∷ without y xs = ground (arith, eq_iff x y, eq_iff y x) in e)
    ∙ without_all-cons gone x (without y xs) (ground arith)

includes-keep :
    (p : WorkspaceDocument → Bool) (ds : List WorkspaceDocument) (a : String)
    → includes (map id_of ds) a ≡ false
    → includes (map id_of (keep p ds)) a ≡ false
unfolding includes
includes-keep p [] a h = refl
includes-keep p (d ∷ ds) a h = ground (arith, includes-keep p ds a)

without-head : (x : String) (xs : List String) → includes xs x ≡ false → without x (x ∷ xs) ≡ xs
unfolding without
without-head x xs h = ground (arith, eq_refl x, without_of_absent x xs)

without_all-keep :
    (p : WorkspaceDocument → Bool) (ds : List WorkspaceDocument)
    → Distinct (map id_of ds)
    → without_all (map id_of (keep p ds)) (map id_of ds) ≡ map id_of (keep (λ d. not (p d)) ds)
without_all-keep p [] u = refl
without_all-keep p (d ∷ ds) (n, u) = elim (Bool-cases (p d)) [
  | inl gone ↦ rw gone (
      ap (without_all (map id_of (keep p ds))) (without-head (id_of d) (map id_of ds) n)
      ∙ without_all-keep p ds u)
  | inr stays ↦ rw stays (
      without_all-cons (map id_of (keep p ds)) (id_of d) (map id_of ds)
        (includes-keep p ds (id_of d) n)
      ∙ ap (λ (l : List String). id_of d ∷ l) (without_all-keep p ds u))
]

absent-IsUnsaved :
    (ds : List WorkspaceDocument) (a : String)
    → includes (map id_of ds) a ≡ false
    → All (IsUnsaved a) ds
unfolding includes
absent-IsUnsaved [] a h = tt
absent-IsUnsaved (d ∷ ds) a h = (λ e. absurd (ground arith), absent-IsUnsaved ds a (ground arith))

members-included :
    (ds : List WorkspaceDocument) → All (λ e. includes (map id_of ds) (id_of e) ≡ true) ds
unfolding includes
members-included [] = tt
members-included (d ∷ ds) = (
  ground (arith, eq_refl (id_of d)),
  All-mono (λ e. includes (map id_of ds) (id_of e) ≡ true)
      (λ e. includes (id_of d ∷ map id_of ds) (id_of e) ≡ true) (λ e h. ground arith) ds
      (members-included ds),
)

other-IsUnsaved :
    (d : WorkspaceDocument) (ds : List WorkspaceDocument) (a : String)
    → includes (map id_of ds) (id_of d) ≡ false
    → includes (map id_of ds) a ≡ true
    → IsUnsaved a d
other-IsUnsaved d ds a n m h = absurd (ground (arith, eq_iff (id_of d) a))

abbrev IsIncluded : List WorkspaceDocument → WorkspaceDocument → Type 0
IsIncluded ds e = includes (map id_of ds) (id_of e) ≡ true

later-AreUnsaved :
    (d : WorkspaceDocument) (ds es : List WorkspaceDocument)
    → includes (map id_of ds) (id_of d) ≡ false
    → All (IsIncluded ds) es
    → All (λ e. All (IsUnsaved (id_of e)) ds) es
    → All (λ e. All (IsUnsaved (id_of e)) (d ∷ ds)) es
later-AreUnsaved d ds es n m u =
    All-mono (λ e. IsIncluded ds e × All (IsUnsaved (id_of e)) ds)
      (λ e. All (IsUnsaved (id_of e)) (d ∷ ds)) (λ e h. (other-IsUnsaved d ds (id_of e) n h.0, h.1))
      es (All-zip (IsIncluded ds) (λ e. All (IsUnsaved (id_of e)) ds) es m u)

drafts-AreUnsaved :
    (ds : List WorkspaceDocument)
    → Distinct (map id_of ds)
    → All (λ d. All (IsUnsaved (id_of d)) ds) (keep is_draft ds)
drafts-AreUnsaved [] u = tt
drafts-AreUnsaved (d ∷ ds) (n, u) =
    let later =
      later-AreUnsaved d ds (keep is_draft ds) n
        (All-keep (IsIncluded ds) is_draft ds (members-included ds)) (drafts-AreUnsaved ds u) in
    elim (Bool-cases (is_draft d)) [
      | inl draft ↦ rw draft (((λ h. ground arith), absent-IsUnsaved ds (id_of d) n), later)
      | inr other ↦ rw other later
    ]

-- Discarding all drafts removes just the documents that were unsaved and meaningful at the start.
ids-discard_all_drafts :
    (w : Workspace)
    → Distinct (ids w)
    → ids (discard_all_drafts w) ≡ map id_of (keep (λ d. not (is_draft d)) w.documents)
unfolding discard_all_drafts
ids-discard_all_drafts w u =
    ids-discard_each w (keep is_draft w.documents) (drafts-AreUnsaved w.documents u)
    ∙ without_all-keep is_draft w.documents u
