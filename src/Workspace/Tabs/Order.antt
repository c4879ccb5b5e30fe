-- ===== src/Workspace/Tabs/Order.antt =====
-- Which tab comes where: dragging a tab, and the tab that follows a closed one.
use purr.Common.{
  ℕ, suc, ◌-◌, ◌≤◌, ◌≡◌, ◌≢◌, refl, ◌∙◌, ap, Bool, true, false, Option, none, some, List, [], ◌∷◌,
  ◌++◌, arith, String, includes, without, index_of, splice_out, Distinct, get_elem?, length,
  length-append, head?, includes-append, includes-without, splice_out-index_of, index_of-lt,
  length-splice_out, index_of-splice_in, without-splice_in, without_of_absent, eq_iff, eq_refl,
  Option-cases, inl, inr, nat_eq,
}
use Prim.Native.Nat.{min}
use mathlib.Core.List.{append-nil}
use purr.Workspace.{Workspace, Ui}
use purr.Workspace.Tabs.{reorder_open_documents, close_document, neighbour, activate_ui, closed_ui}

-- Dragging an open tab on another one puts it at the other's place, and leaves the rest in order.
pub reorder_places :
    (w : Workspace) (source target : String) (i j : ℕ)
    → Distinct w.ui.open_document_ids
    → index_of w.ui.open_document_ids source ≡ some i
    → index_of w.ui.open_document_ids target ≡ some j
    → i ≢ j
    → (index_of (reorder_open_documents w source target).ui.open_document_ids source ≡ some j)
      × (without source (reorder_open_documents w source target).ui.open_document_ids
          ≡ without source w.ui.open_document_ids)
unfolding reorder_open_documents
reorder_places w source target i j d hi hj ne =
    let opened : List String = w.ui.open_document_ids in
    let differ : nat_eq i j ≡ false = ground arith in
    let cut : splice_out i opened ≡ without source opened =
      splice_out-index_of opened source i d hi in
    let gone : includes (without source opened) source ≡ false =
      ground (arith, includes-without source opened source, eq_refl source) in
    let fits : j ≤ length (splice_out i opened) = omega (
      arith,
      index_of-lt opened target j hj,
      length-splice_out opened i (index_of-lt opened source i hi),
    ) in
    rw (hi, hj, differ)
      (
        rw cut (index_of-splice_in j source (without source opened) gone (rw cut at fits)),
        rw cut
            (without-splice_in j source (without source opened) ∙ without_of_absent source _ gone),
      )

abbrev pub last? : List String → Option String
last? [] = none
last? (x ∷ []) = some x
last? (x ∷ y ∷ xs) = last? (y ∷ xs)

-- The tab right of a closed one, and the last one if there is none.
abbrev pub next_of : List String → List String → Option String
next_of xs (y ∷ ys) = some y
next_of xs [] = last? xs

get_elem?-last : (xs : List String) → get_elem? xs (length xs - 1) ≡ last? xs
get_elem?-last [] = refl
get_elem?-last (x ∷ []) = refl
get_elem?-last (x ∷ y ∷ xs) =
    ap (get_elem? (x ∷ y ∷ xs))
      (let e : suc (suc (length xs)) - 1 ≡ suc (length xs) = omega arith in e)
    ∙ ap (get_elem? (y ∷ xs)) (let e : length xs ≡ suc (length xs) - 1 = omega arith in e)
    ∙ get_elem?-last (y ∷ xs)

get_elem?-middle :
    (xs : List String) (y : String) (ys : List String)
    → get_elem? (xs ++ (y ∷ ys)) (length xs) ≡ some y
get_elem?-middle [] y ys = refl
get_elem?-middle (x ∷ xs) y ys = get_elem?-middle xs y ys

index_of-middle :
    (xs : List String) (id : String) (ys : List String)
    → includes xs id ≡ false
    → index_of (xs ++ (id ∷ ys)) id ≡ some (length xs)
unfolding index_of includes
index_of-middle [] id ys h = ground (arith, eq_refl id)
index_of-middle (x ∷ xs) id ys h = ground (arith, index_of-middle xs id ys)

without-middle :
    (xs : List String) (id : String) (ys : List String)
    → includes xs id ≡ false
    → includes ys id ≡ false
    → without id (xs ++ (id ∷ ys)) ≡ xs ++ ys
unfolding without includes
without-middle [] id ys h k = ground (arith, eq_refl id, without_of_absent id ys)
without-middle (x ∷ xs) id ys h k = ground (arith, without-middle xs id ys)

neighbour-middle : (xs ys : List String) → neighbour (some (length xs)) (xs ++ ys) ≡ next_of xs ys
neighbour-middle xs [] =
    ap (λ (l : List String). get_elem? l (min (length xs) (length l - 1))) (append-nil xs)
    ∙ ap (get_elem? xs) (let e : min (length xs) (length xs - 1) ≡ length xs - 1 = omega arith in e)
    ∙ get_elem?-last xs
neighbour-middle xs (y ∷ ys) =
    ap (get_elem? (xs ++ (y ∷ ys))) (
      let e : min (length xs) (length (xs ++ (y ∷ ys)) - 1) ≡ length xs =
        omega (arith, length-append xs (y ∷ ys)) in
      e)
    ∙ get_elem?-middle xs y ys

Distinct-middle :
    (xs : List String) (id : String) (ys : List String)
    → Distinct (xs ++ (id ∷ ys))
    → (includes xs id ≡ false) × (includes ys id ≡ false)
unfolding includes
Distinct-middle [] id ys (n, d) = (refl, n)
Distinct-middle (x ∷ xs) id ys (n, d) =
    ground
      (arith, Distinct-middle xs id ys d, includes-append xs (id ∷ ys) x, eq_iff x id, eq_iff id x)

includes-next_of :
    (xs ys : List String) (a : String) → next_of xs ys ≡ some a → includes (xs ++ ys) a ≡ true
unfolding includes
includes-next_of [] [] a h = absurd (cc)
includes-next_of (x ∷ []) [] a h = ground (arith, eq_iff x a)
includes-next_of (x ∷ z ∷ xs) [] a h = ground (arith, includes-next_of (z ∷ xs) [] a)
includes-next_of xs (y ∷ ys) a h = ground (arith, includes-append xs (y ∷ ys) a, eq_iff y a)

next_of-none : (xs ys : List String) → next_of xs ys ≡ none → head? (xs ++ ys) ≡ none
next_of-none [] [] h = refl
next_of-none (x ∷ []) [] h = absurd (cc)
next_of-none (x ∷ z ∷ xs) [] h = absurd (cc (next_of-none (z ∷ xs) [] h))
next_of-none xs (y ∷ ys) h = absurd (cc)

active-activate :
    (ui : Ui) (xs ys : List String)
    → ui.open_document_ids ≡ xs ++ ys
    → ui.active_document_id ≡ next_of xs ys
    → includes (xs ++ ys) "" ≡ false
    → (activate_ui ui).active_document_id ≡ next_of xs ys
active-activate ui xs ys o a named = elim (Option-cases (next_of xs ys)) [
  | inl empty ↦ ground (arith, next_of-none xs ys)
  | inr (b, next) ↦ ground (arith, includes-next_of xs ys b, eq_iff b "")
]

-- Closing the active document makes the tab right of it active, or the last one if there is none.
pub close_document-active :
    (w : Workspace) (id : String) (kept : Bool) (xs ys : List String)
    → w.ui.open_document_ids ≡ xs ++ (id ∷ ys)
    → Distinct w.ui.open_document_ids
    → includes w.ui.open_document_ids "" ≡ false
    → w.ui.active_document_id ≡ some id
    → (close_document w id kept).ui.active_document_id ≡ next_of xs ys
unfolding close_document
close_document-active w id kept xs ys o d named a =
    let (left, right) = Distinct-middle xs id ys (rw o at d) in
    let cut : without id w.ui.open_document_ids ≡ xs ++ ys =
      ap (without id) o ∙ without-middle xs id ys left right in
    let place : index_of w.ui.open_document_ids id ≡ some (length xs) =
      ap (λ (l : List String). index_of l id) o ∙ index_of-middle xs id ys left in
    active-activate (closed_ui w.ui id) xs ys cut
      (rw (a, eq_refl id, place, cut) (neighbour-middle xs ys))
      (rw (← cut) (ground (arith, includes-without id w.ui.open_document_ids "", named)))
