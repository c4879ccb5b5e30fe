-- ===== src/Registry.antt =====
-- src/extension-api/registry.ts: the registration of what extensions contribute. A registration that throws
-- changes nothing, and an extension may catch the error and go on, so that a run is any sequence of
-- attempts. `is_web_url` stands for the platform's `URL` with the test of its protocol, and `creates` for
-- whether the extension's own `create` returns; a `create` that itself registers is left out, as are the
-- values of the orders and the sorting by them.
pub mod Manifests
pub mod Unique
mod Tests
use purr.Common.{
  ℕ, Bool, true, false, ◌&&◌, ◌||◌, not, Option, none, some, List, [], ◌∷◌, ◌++◌, Text, codes, trim,
  truthy, text_eq, any, leb, nat_eq, if◌then◌else◌,
}

pub data MenuAction : Type 0 where
  link : (url : Text) → MenuAction
  action : (callable : Bool) → MenuAction

pub record MenuContribution : Type 0 where
  pub id : Text
  pub label : Text
  pub finite_order : Bool
  pub action : MenuAction

pub record IntegrationPresentation : Type 0 where
  pub id : Text
  pub label : Text

pub record PageContribution : Type 0 where
  pub id : Text
  pub route_segment : Text
  pub title : Text
  pub navigation_label : Option Text
  pub creates : Bool

pub record DocumentTypeContribution : Type 0 where
  pub extension_type : Text
  pub label : Text
  pub creates : Bool

-- A contribution, or a page's path, with the module that owns it.
pub record Owned (A : Type 0) : Type 0 where
  pub module_id : Text
  pub key : Text
  pub value : A

-- The state of `createExtensionRegistry`.
pub record Registry : Type 0 where
  pub menu_items : List (Owned MenuContribution)
  pub integrations : List (Owned IntegrationPresentation)
  pub pages : List (Owned PageContribution)
  pub document_types : List (Owned DocumentTypeContribution)
  pub menu_ids : List Text
  pub integration_ids : List Text
  pub page_ids : List Text
  pub paths : List Text
  pub document_type_ids : List Text
  pub frozen : Bool

abbrev pub empty_registry : Registry
empty_registry = record {
  menu_items = [];
  integrations = [];
  pages = [];
  document_types = [];
  menu_ids = [];
  integration_ids = [];
  page_ids = [];
  paths = codes "/" ∷ codes "/workbench" ∷ [];
  document_type_ids = [];
  frozen = false;
}

abbrev is_lower : ℕ → Bool
is_lower c = leb b'a' c && leb c b'z'

abbrev is_plain : ℕ → Bool
is_plain c = is_lower c || (leb b'0' c && leb c b'9')

-- `(?:[…][a-z0-9]+)*$`, after a character that is or is not a separator.
pub is_tail : (ℕ → Bool) → Bool → Text → Bool
is_tail separator separated [] = not separated
is_tail separator separated (c ∷ s) =
    (is_plain c && is_tail separator false s)
    || (not separated && separator c && is_tail separator true s)

abbrev is_segmented : (ℕ → Bool) → Text → Bool
unfolding is_tail
is_segmented separator [] = false
is_segmented separator (c ∷ s) = is_lower c && is_tail separator false s

unfoldable pub is_stable_id : Text → Bool
unfolding is_segmented
is_stable_id s = is_segmented (λ c. nat_eq c b'.' || nat_eq c b'_' || nat_eq c b'-') s

unfoldable pub is_local_id : Text → Bool
unfolding is_segmented
is_local_id s = is_segmented (λ c. nat_eq c b'-' || nat_eq c b'_') s

unfoldable pub is_route_segment : Text → Bool
unfolding is_segmented
is_route_segment s = is_segmented (λ c. nat_eq c b'-') s

abbrev pub has : List Text → Text → Bool
has set s = any (text_eq s) set

-- `${moduleId}.${value.id}` and `/extensions/${moduleId}/${value.routeSegment}`
abbrev pub scoped : Text → Text → Text
scoped module_id id = module_id ++ (codes "." ++ id)

abbrev pub page_path : Text → Text → Text
page_path module_id segment = codes "/extensions/" ++ (module_id ++ (codes "/" ++ segment))

-- Registrations: the state after one, or none if it throws.
abbrev pub action_allowed : (Text → Bool) → MenuAction → Bool
action_allowed is_web_url (link url) = is_web_url url
action_allowed is_web_url (action callable) = callable

unfoldable pub register_menu_item :
    (Text → Bool) → Text → Registry → MenuContribution → Option Registry
register_menu_item is_web_url module_id r v =
    let id = scoped module_id v.id in
    if r.frozen
      || not (is_local_id v.id)
      || not (truthy (trim v.label))
      || not v.finite_order
      || has r.menu_ids id
      || not (action_allowed is_web_url v.action)
    then none
    else some (record r {
      menu_ids = r.menu_ids ++ (id ∷ []);
      menu_items = r.menu_items ++ (record { module_id = module_id; key = id; value = v } ∷ []);
    })

unfoldable pub register_integration : Text → Registry → IntegrationPresentation → Option Registry
register_integration module_id r v =
    if r.frozen
      || not (is_stable_id v.id)
      || has r.integration_ids v.id
      || not (truthy (trim v.label))
    then none
    else some (record r {
      integration_ids = r.integration_ids ++ (v.id ∷ []);
      integrations =
          r.integrations ++ (record { module_id = module_id; key = v.id; value = v } ∷ []);
    })

abbrev pub labelled : Option Text → Bool
labelled none = true
labelled (some label) = truthy (trim label)

unfoldable pub register_page : Text → Registry → PageContribution → Option Registry
register_page module_id r v =
    let id = scoped module_id v.id in
    let path = page_path module_id v.route_segment in
    if r.frozen
      || not (is_local_id v.id)
      || not (is_route_segment v.route_segment)
      || has r.page_ids id
      || has r.paths path
      || not (truthy (trim v.title))
      || not (labelled v.navigation_label)
      || not v.creates
    then none
    else some (record r {
      page_ids = r.page_ids ++ (id ∷ []);
      paths = r.paths ++ (path ∷ []);
      pages = r.pages ++ (record { module_id = module_id; key = path; value = v } ∷ []);
    })

unfoldable pub register_document_type : Text → Registry → DocumentTypeContribution → Option Registry
register_document_type module_id r v =
    if r.frozen
      || not (is_stable_id v.extension_type)
      || has r.document_type_ids v.extension_type
      || not (truthy (trim v.label))
      || not v.creates
    then none
    else some (record r {
      document_type_ids = r.document_type_ids ++ (v.extension_type ∷ []);
      document_types =
          r.document_types
          ++ (record { module_id = module_id; key = v.extension_type; value = v } ∷ []);
    })

-- What a run does: attempts of the modules, and the end of the composition.
pub data Attempt : Type 0 where
  menu_item : (module_id : Text) → MenuContribution → Attempt
  integration : (module_id : Text) → IntegrationPresentation → Attempt
  page : (module_id : Text) → PageContribution → Attempt
  document_type : (module_id : Text) → DocumentTypeContribution → Attempt
  freeze : Attempt

abbrev pub or_same : Registry → Option Registry → Registry
or_same r none = r
or_same r (some s) = s

unfoldable pub attempt : (Text → Bool) → Registry → Attempt → Registry
unfolding register_menu_item register_integration register_page register_document_type
attempt is_web_url r (menu_item m v) = or_same r (register_menu_item is_web_url m r v)
attempt is_web_url r (integration m v) = or_same r (register_integration m r v)
attempt is_web_url r (page m v) = or_same r (register_page m r v)
attempt is_web_url r (document_type m v) = or_same r (register_document_type m r v)
attempt is_web_url r freeze = record r { frozen = true }

unfoldable pub attempts : (Text → Bool) → Registry → List Attempt → Registry
unfolding attempt
attempts is_web_url r [] = r
attempts is_web_url r (a ∷ rest) = attempts is_web_url (attempt is_web_url r a) rest
