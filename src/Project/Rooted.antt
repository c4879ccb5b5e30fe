-- ===== src/Project/Rooted.antt =====
-- The walk through the folders ends, and what it shows of them.
use purr.Common.{
  ℕ, zero, suc, ◌+◌, ◌≤◌, ◌≡◌, ap, refl, true, false, Option, none, some, List, [], ◌∷◌, arith,
  eq_iff, String, ◌===◌, includes, without, Distinct, length, map, Bool-cases, inl, inr, ◌⊎◌,
  includes-without,
}
use mathlib.Core.Path.{subst}
use purr.Project.{ProjectResource, ProjectError, folder_cycle, missing_folder}
use purr.Project.Folders.{find_folder, climb, climb_to, validate_folders}

length-without_le : (id : String) (xs : List String) → length (without id xs) ≤ length xs
unfolding without
length-without_le id [] = omega arith
length-without_le id (x ∷ xs) = ground (arith, length-without_le id xs)

length-without :
    (id : String) (xs : List String)
    → includes xs id ≡ true
    → suc (length (without id xs)) ≤ length xs
unfolding includes without
length-without id [] h = absurd (cc)
length-without id (x ∷ xs) h = ground (arith, length-without_le id xs, length-without id xs)

-- Every entry of `seen` stands in `ids`.
abbrev Within : List String → List String → Type 0
Within ids [] = Unit
Within ids (x ∷ seen) = (includes ids x ≡ true) × Within ids seen

Within-without :
    (id : String) (ids seen : List String)
    → includes seen id ≡ false
    → Within ids seen
    → Within (without id ids) seen
unfolding includes
Within-without id ids [] n h = tt
Within-without id ids (x ∷ seen) n h = (
  ground (arith, includes-without id ids x, eq_iff id x, eq_iff x id),
  Within-without id ids seen (ground arith) h.1,
)

-- A list without repetitions whose entries stand in another list is not longer than it.
length-Within :
    (ids seen : List String) → Distinct seen → Within ids seen → length seen ≤ length ids
length-Within ids [] d h = omega arith
length-Within ids (x ∷ seen) d h = omega (
  arith,
  length-without x ids h.0,
  length-Within (without x ids) seen d.1 (Within-without x ids seen d.0 h.1),
)

includes-head : (id : String) (ids : List String) → includes (id ∷ ids) id ≡ true
unfolding includes
includes-head id ids = ground (arith, eq_iff id id)

includes-later :
    (id p : String) (ids : List String) → includes ids p ≡ true → includes (id ∷ ids) p ≡ true
unfolding includes
includes-later id p ids h = ground arith

abbrev ids_of : List ProjectResource → List String
ids_of rs = map ProjectResource.id rs

length-ids_of : (rs : List ProjectResource) → length (ids_of rs) ≡ length rs
length-ids_of [] = refl
length-ids_of (r ∷ rs) = ap suc (length-ids_of rs)

find_folder-includes :
    (rs : List ProjectResource) (parent : String) (f : ProjectResource)
    → find_folder rs parent ≡ some f
    → includes (ids_of rs) parent ≡ true
unfolding includes
find_folder-includes [] parent f h = absurd (cc)
find_folder-includes (r ∷ rs) parent f h =
    ground (arith, find_folder-includes rs parent f, eq_iff r.id parent)

-- What the walk may say.
abbrev pub Ends : Option ProjectError → Type 0
Ends e = (e ≡ none) ⊎ (e ≡ some folder_cycle) ⊎ (e ≡ some missing_folder)

-- A step of the walk.
climb_to_rule :
    (P : Option ProjectError → Type 0) (o : Option ProjectResource)
    (go : Option String → Option ProjectError)
    → P (some missing_folder)
    → ((f : ProjectResource) → o ≡ some f → P (go f.folder_id))
    → P (climb_to o go)
climb_to_rule P none go m k = m
climb_to_rule P (some f) go m k = k f refl

module _ (rs : List ProjectResource) (ids : List String)
    (known : (p : String) → includes (ids_of rs) p ≡ true → includes ids p ≡ true) where
  climb-Ends :
      (fuel : ℕ) (seen : List String) (parent : Option String)
      → Distinct seen
      → Within ids seen
      → suc (length ids) ≤ fuel + length seen
      → Ends (climb fuel rs seen parent)
  unfolding climb
  climb-Ends fuel seen none d w h = inl refl
  climb-Ends zero seen (some p) d w h = absurd (omega (arith, length-Within ids seen d w))
  climb-Ends (suc fuel) seen (some p) d w h = elim (Bool-cases (p === "")) [
    | inl blank ↦ rw blank (inl refl)
    | inr named ↦ elim (Bool-cases (includes seen p)) [
      | inl again ↦ rw (named, again) (inr (inl refl))
      | inr new ↦
          rw (named, new)
            (climb_to_rule Ends (find_folder rs p) (climb fuel rs (p ∷ seen)) (inr (inr refl))
              λ f found.
                climb-Ends fuel (p ∷ seen) f.folder_id (new, d)
                  (known p (find_folder-includes rs p f found), w) (omega arith))
    ]
  ]

-- The walk through the folders of a resource always comes to an end: at the root, at a missing folder or
-- at a cycle, which it reports.
pub validate_folders_total :
    (rs : List ProjectResource) (r : ProjectResource)
    → (validate_folders rs r ≡ none)
      ⊎ (validate_folders rs r ≡ some folder_cycle)
      ⊎ (validate_folders rs r ≡ some missing_folder)
unfolding validate_folders includes
validate_folders_total rs r =
    climb-Ends rs (r.id ∷ ids_of rs) (λ p h. includes-later r.id p (ids_of rs) h)
      (suc (suc (length rs))) (r.id ∷ []) r.folder_id (refl, tt)
      (includes-head r.id (ids_of rs), tt) (omega (arith, length-ids_of rs))

-- The chain of folders from a resource to the root: every link is a folder of the project, and the chain
-- ends.
pub data Rooted (rs : List ProjectResource) : Option String → Type 0 where
  root : Rooted rs none
  blank : Rooted rs (some "")
  up :
      (p : String) (f : ProjectResource)
      → find_folder rs p ≡ some f
      → Rooted rs f.folder_id
      → Rooted rs (some p)

pub climb-Rooted :
    (fuel : ℕ) (rs : List ProjectResource) (seen : List String) (parent : Option String)
    → climb fuel rs seen parent ≡ none
    → Rooted rs parent
unfolding climb
climb-Rooted fuel rs seen none h = root
climb-Rooted zero rs seen (some p) h = absurd (cc)
climb-Rooted (suc fuel) rs seen (some p) h = elim (Bool-cases (p === "")) [
  | inl e ↦ subst (λ q. Rooted rs (some q)) (ground (arith, eq_iff p "")) blank
  | inr named ↦ elim (Bool-cases (includes seen p)) [
    | inl again ↦ absurd (ground arith)
    | inr new ↦
        climb_to_rule (λ e. e ≡ none → Rooted rs (some p)) (find_folder rs p)
          (climb fuel rs (p ∷ seen)) (λ e. absurd (cc))
          (λ f found e. up p f found (climb-Rooted fuel rs (p ∷ seen) f.folder_id e)) (ground arith)
  ]
]
