-- ===== src/Registry/Manifests.antt =====
-- src/extension-api/registry.ts: the check of the modules before any of them registers.
use purr.Common.{
  Different, text_eq_refl, eq_of_text_eq, ℕ, ◌≡◌, refl, Bool, true, false, ◌&&◌, not, List, [], ◌∷◌,
  map, arith, Text, trim, truthy, text_eq, nat_eq, All, ◌≢◌,
}
use purr.Registry.{has, is_stable_id}

pub record Manifest : Type 0 where
  pub id : Text
  pub extension_api : ℕ
  pub version : Text

abbrev pub extension_api_version : ℕ
extension_api_version = 1

-- The loop over the manifests passes, where `module_ids` are those of the modules before: its four guards,
-- each of which throws.
unfoldable pub check_manifests : List Text → List Manifest → Bool
check_manifests module_ids [] = true
check_manifests module_ids (m ∷ ms) =
    is_stable_id m.id
    && nat_eq m.extension_api extension_api_version
    && truthy (trim m.version)
    && not (has module_ids m.id)
    && check_manifests (m.id ∷ module_ids) ms

check_manifests-fresh :
    (module_ids : List Text) (ms : List Manifest) (id : Text)
    → check_manifests module_ids ms ≡ true
    → has module_ids id ≡ true
    → has (map Manifest.id ms) id ≡ false
unfolding check_manifests
check_manifests-fresh module_ids [] id h k = refl
check_manifests-fresh module_ids (m ∷ ms) id h k =
    ground (arith, check_manifests-fresh (m.id ∷ module_ids) ms id, eq_of_text_eq id m.id)

check_manifests-Different :
    (module_ids : List Text) (ms : List Manifest)
    → check_manifests module_ids ms ≡ true
    → Different text_eq (map Manifest.id ms)
unfolding check_manifests
check_manifests-Different module_ids [] h = tt
check_manifests-Different module_ids (m ∷ ms) h = ground (
  arith,
  check_manifests-Different (m.id ∷ module_ids) ms,
  check_manifests-fresh (m.id ∷ module_ids) ms m.id,
  text_eq_refl m.id,
)

-- What a module is to have.
abbrev pub IsSupported : Manifest → Type 0
IsSupported m = (is_stable_id m.id ≡ true) × (m.extension_api ≡ 1) × (trim m.version ≢ [])

truthy-ne : (s : Text) → truthy s ≡ true → s ≢ []
truthy-ne [] h = absurd (cc)
truthy-ne (c ∷ s) h = λ (q : c ∷ s ≡ []). absurd (cc)

check_manifests-IsSupported :
    (module_ids : List Text) (ms : List Manifest)
    → check_manifests module_ids ms ≡ true
    → All IsSupported ms
unfolding check_manifests
check_manifests-IsSupported module_ids [] h = tt
check_manifests-IsSupported module_ids (m ∷ ms) h = (
  (ground (arith, h), ground (arith, h), truthy-ne (trim m.version) (ground (arith, h))),
  check_manifests-IsSupported (m.id ∷ module_ids) ms (ground (arith, h)),
)

-- If the check of the modules passes, then each has a stable identifier, asks for version 1 of the
-- extension API and has a version that is not blank, and no two have one identifier.
pub check_manifests_unique :
    (ms : List Manifest)
    → check_manifests [] ms ≡ true
    → All IsSupported ms × Different text_eq (map Manifest.id ms)
check_manifests_unique ms h =
    (check_manifests-IsSupported [] ms h, check_manifests-Different [] ms h)
