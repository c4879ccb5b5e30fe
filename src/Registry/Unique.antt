-- ===== src/Registry/Unique.antt =====
-- What a registry holds, whatever the extensions attempt.
use purr.Common.{
  Different, text_eq_refl, eq_of_text_eq, ◌≡◌, refl, sym, ap, ◌∙◌, Bool, true, false, ◌||◌, none,
  some, List, [], ◌∷◌, ◌++◌, map, arith, Text, codes, text_eq, any, if◌then◌else◌,
}
use mathlib.Core.List.{append_assoc, map-append}
use purr.Registry.{
  MenuContribution, IntegrationPresentation, PageContribution, DocumentTypeContribution, Owned,
  Registry, empty_registry, scoped, page_path, register_menu_item, register_integration,
  register_page, register_document_type, Attempt, menu_item, integration, page, document_type,
  freeze, or_same, attempt, attempts,
}

any-append_one :
    (xs : List Text) (x n : Text)
    → any (text_eq n) (xs ++ (x ∷ [])) ≡ (any (text_eq n) xs || text_eq n x)
any-append_one [] x n = ground arith
any-append_one (y ∷ xs) x n = ground (arith, any-append_one xs x n)

Different-append_one :
    (xs : List Text) (x : Text)
    → Different text_eq xs
    → any (text_eq x) xs ≡ false
    → Different text_eq (xs ++ (x ∷ []))
Different-append_one [] x d h = (refl, tt)
Different-append_one (y ∷ xs) x (n, d) h = (
  ground (arith, any-append_one xs x y, eq_of_text_eq y x, text_eq_refl x),
  Different-append_one xs x d (ground arith),
)

abbrev pub keys : {A : Type 0} → List (Owned A) → List Text
keys xs = map Owned.key xs

keys-append_one :
    {A : Type 0} (xs : List (Owned A)) (x : Owned A)
    → keys (xs ++ (x ∷ [])) ≡ keys xs ++ (x.key ∷ [])
keys-append_one [] x = refl
keys-append_one (y ∷ xs) x = ap (λ ks. y.key ∷ ks) (keys-append_one xs x)

-- The identifiers of pages, each in the scope of its module.
abbrev pub page_id : Owned PageContribution → Text
page_id p = scoped p.module_id p.value.id

-- A list of contributions, and the set of their identifiers: the same identifiers, each once.
pub record IsIndexed {A : Type 0} (first : List Text) (items : List (Owned A)) (set : List Text)
    : Type 0 where
  pub same : set ≡ first ++ keys items
  pub once : Different text_eq set

add-IsIndexed :
    {A : Type 0} (first : List Text) (items : List (Owned A)) (set : List Text) (x : Owned A)
    → any (text_eq x.key) set ≡ false
    → IsIndexed first items set
    → IsIndexed first (items ++ (x ∷ [])) (set ++ (x.key ∷ []))
add-IsIndexed first items set x h i = record {
  same = rw (keys-append_one items x, i.same) (append_assoc first (keys items) (x.key ∷ []));
  once = Different-append_one set x.key i.once h;
}

-- The pages, and the set of their identifiers.
pub record IsKnown (pages : List (Owned PageContribution)) (set : List Text) : Type 0 where
  pub same : set ≡ map page_id pages
  pub once : Different text_eq set

add-IsKnown :
    (pages : List (Owned PageContribution)) (set : List Text) (p : Owned PageContribution)
    → any (text_eq (page_id p)) set ≡ false
    → IsKnown pages set
    → IsKnown (pages ++ (p ∷ [])) (set ++ (page_id p ∷ []))
add-IsKnown pages set p h i = record {
  same = rw (map-append page_id pages (p ∷ []), i.same) refl;
  once = Different-append_one set (page_id p) i.once h;
}

-- Each contribution is known by its identifier, and a page also by its path, which is not a path of the
-- application's own.
pub record IsUnique (r : Registry) : Type 0 where
  pub menu_items : IsIndexed [] r.menu_items r.menu_ids
  pub integrations : IsIndexed [] r.integrations r.integration_ids
  pub pages : IsIndexed (codes "/" ∷ codes "/workbench" ∷ []) r.pages r.paths
  pub page_ids : IsKnown r.pages r.page_ids
  pub document_types : IsIndexed [] r.document_types r.document_type_ids

guard_rule :
    (P : Registry → Type 0) (b : Bool) (r s : Registry)
    → P r
    → (b ≡ false → P s)
    → P (or_same r (if b then none else some s))
guard_rule P true r s h k = h
guard_rule P false r s h k = k refl

register_menu_item-IsUnique :
    (is_web_url : Text → Bool) (m : Text) (r : Registry) (v : MenuContribution)
    → IsUnique r
    → IsUnique (or_same r (register_menu_item is_web_url m r v))
unfolding register_menu_item
register_menu_item-IsUnique is_web_url m r v u = guard_rule IsUnique _ r _ u λ free. record {
  menu_items =
      add-IsIndexed [] r.menu_items r.menu_ids
        (record { module_id = m; key = scoped m v.id; value = v }) (ground arith) u.menu_items;
  integrations = u.integrations;
  pages = u.pages;
  page_ids = u.page_ids;
  document_types = u.document_types;
}

register_integration-IsUnique :
    (m : Text) (r : Registry) (v : IntegrationPresentation)
    → IsUnique r
    → IsUnique (or_same r (register_integration m r v))
unfolding register_integration
register_integration-IsUnique m r v u = guard_rule IsUnique _ r _ u λ free. record {
  menu_items = u.menu_items;
  integrations = add-IsIndexed [] r.integrations r.integration_ids _ (ground arith) u.integrations;
  pages = u.pages;
  page_ids = u.page_ids;
  document_types = u.document_types;
}

register_page-IsUnique :
    (m : Text) (r : Registry) (v : PageContribution)
    → IsUnique r
    → IsUnique (or_same r (register_page m r v))
unfolding register_page
register_page-IsUnique m r v u = guard_rule IsUnique _ r _ u λ free. record {
  menu_items = u.menu_items;
  integrations = u.integrations;
  pages = add-IsIndexed _ r.pages r.paths _ (ground arith) u.pages;
  page_ids =
      add-IsKnown r.pages r.page_ids
        (record { module_id = m; key = page_path m v.route_segment; value = v }) (ground arith)
        u.page_ids;
  document_types = u.document_types;
}

register_document_type-IsUnique :
    (m : Text) (r : Registry) (v : DocumentTypeContribution)
    → IsUnique r
    → IsUnique (or_same r (register_document_type m r v))
unfolding register_document_type
register_document_type-IsUnique m r v u = guard_rule IsUnique _ r _ u λ free. record {
  menu_items = u.menu_items;
  integrations = u.integrations;
  pages = u.pages;
  page_ids = u.page_ids;
  document_types =
      add-IsIndexed [] r.document_types r.document_type_ids _ (ground arith) u.document_types;
}

attempt-IsUnique :
    (is_web_url : Text → Bool) (r : Registry) (a : Attempt)
    → IsUnique r
    → IsUnique (attempt is_web_url r a)
unfolding attempt
attempt-IsUnique is_web_url r (menu_item m v) u = register_menu_item-IsUnique is_web_url m r v u
attempt-IsUnique is_web_url r (integration m v) u = register_integration-IsUnique m r v u
attempt-IsUnique is_web_url r (page m v) u = register_page-IsUnique m r v u
attempt-IsUnique is_web_url r (document_type m v) u = register_document_type-IsUnique m r v u
attempt-IsUnique is_web_url r freeze u = record {
  menu_items = u.menu_items;
  integrations = u.integrations;
  pages = u.pages;
  page_ids = u.page_ids;
  document_types = u.document_types;
}

after-IsUnique :
    (is_web_url : Text → Bool) (r : Registry) (as_made : List Attempt)
    → IsUnique r
    → IsUnique (attempts is_web_url r as_made)
unfolding attempts
after-IsUnique is_web_url r [] u = u
after-IsUnique is_web_url r (a ∷ rest) u =
    after-IsUnique is_web_url (attempt is_web_url r a) rest (attempt-IsUnique is_web_url r a u)

-- Whatever extensions attempt one after the other, with or without errors in between: the registry's menu items, integrations,
-- pages and document types each have an identifier of their own among their kind, the pages also have different
-- paths, none of them a path of the application, and the sets of taken identifiers and paths are those.
pub attempts-IsUnique :
    (is_web_url : Text → Bool) (made : List Attempt)
    → IsUnique (attempts is_web_url empty_registry made)
attempts-IsUnique is_web_url made = after-IsUnique is_web_url empty_registry made (record {
  menu_items = record { same = refl; once = tt };
  integrations = record { same = refl; once = tt };
  pages = record { same = refl; once = (refl, (refl, tt)) };
  page_ids = record { same = refl; once = tt };
  document_types = record { same = refl; once = tt };
})

attempt_frozen :
    (is_web_url : Text → Bool) (r : Registry) (a : Attempt)
    → r.frozen ≡ true
    → attempt is_web_url r a ≡ r
unfolding attempt register_menu_item register_integration register_page register_document_type
attempt_frozen is_web_url r (menu_item m v) f = rw f refl
attempt_frozen is_web_url r (integration m v) f = rw f refl
attempt_frozen is_web_url r (page m v) f = rw f refl
attempt_frozen is_web_url r (document_type m v) f = rw f refl
attempt_frozen is_web_url r freeze f = ap (λ b. record r { frozen = b }) (sym f)

-- After the composition has ended, no attempt changes the registry.
attempts_frozen :
    (is_web_url : Text → Bool) (r : Registry) (made : List Attempt)
    → r.frozen ≡ true
    → attempts is_web_url r made ≡ r
unfolding attempts
attempts_frozen is_web_url r [] f = refl
attempts_frozen is_web_url r (a ∷ rest) f =
    ap (λ s. attempts is_web_url s rest) (attempt_frozen is_web_url r a f)
    ∙ attempts_frozen is_web_url r rest f
