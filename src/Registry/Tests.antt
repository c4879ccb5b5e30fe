-- ===== src/Registry/Tests.antt =====
-- Registrations of two modules.
use purr.Common.{
  Different, ◌≡◌, refl, true, none, List, [], ◌∷◌, Text, codes, text_eq, truthy, All, map, trim,
}
use purr.Registry.{
  Attempt, integration, page, freeze, attempts, empty_registry, is_stable_id, is_local_id,
  is_route_segment,
}
use purr.Registry.Manifests.{Manifest, IsSupported, check_manifests, check_manifests_unique}
use purr.Registry.Unique.{IsUnique, keys, attempts-IsUnique}

abbrev traces_page : Text → Attempt
traces_page m = page m (record {
  id = codes "traces";
  route_segment = codes "traces";
  title = codes "Traces";
  navigation_label = none;
  creates = true;
})

abbrev jaeger : Attempt
jaeger = integration (codes "otel") (record { id = codes "jaeger"; label = codes "Jaeger" })

-- The second page of one path and the second integration are refused, and so is all after the end.
abbrev made : List Attempt
made =
    traces_page (codes "otel")
    ∷ traces_page (codes "otel")
    ∷ jaeger
    ∷ jaeger
    ∷ traces_page (codes "other")
    ∷ freeze
    ∷ traces_page (codes "late")
    ∷ []

pages_made :
    keys (attempts truthy empty_registry made).pages
    ≡ codes "/extensions/otel/traces" ∷ codes "/extensions/other/traces" ∷ []
unfolding attempts is_stable_id is_local_id is_route_segment trim
pages_made = refl

attempts-IsUnique_example : IsUnique (attempts truthy empty_registry made)
attempts-IsUnique_example = attempts-IsUnique truthy made

abbrev manifests : List Manifest
manifests =
    record { id = codes "otel"; extension_api = 1; version = codes "1.0" }
    ∷ record { id = codes "other"; extension_api = 1; version = codes "2" }
    ∷ []

manifests-checked : check_manifests [] manifests ≡ true
unfolding check_manifests is_stable_id trim
manifests-checked = refl

check_manifests_unique_example :
    All IsSupported manifests × Different text_eq (map Manifest.id manifests)
check_manifests_unique_example = check_manifests_unique manifests manifests-checked
