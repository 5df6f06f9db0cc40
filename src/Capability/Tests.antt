-- ===== src/Capability/Tests.antt =====
-- Names on concrete texts.
use zincha_sdk.Base.{◌≡◌, refl, [], ◌∷◌, ok}
use zincha_sdk.Chars.{Chars, trim, to_ascii_lowercase}
use zincha_sdk.Capability.{
  normalize_capability_slug, normalize_capability_slug_field,
  validate_and_normalize_contract_route_name,
}
use zincha_sdk.Capability.Canonical.{slug_field-canonical, route_name-canonical}

-- " A.b"
abbrev written : Chars
written = 32 ∷ 65 ∷ 46 ∷ 98 ∷ []

-- "a.b"
abbrev slug : Chars
slug = 97 ∷ 46 ∷ 98 ∷ []

accepted : normalize_capability_slug_field written ≡ ok slug
unfolding normalize_capability_slug_field normalize_capability_slug trim zincha_sdk.Chars.split
accepted = refl

slug_field-canonical_example :
    (slug ≡ to_ascii_lowercase (trim written))
    × (normalize_capability_slug slug ≡ ok slug)
    × (normalize_capability_slug_field slug ≡ ok slug)
slug_field-canonical_example = slug_field-canonical written accepted

route_accepted : validate_and_normalize_contract_route_name (32 ∷ slug) ≡ ok slug
unfolding validate_and_normalize_contract_route_name trim
route_accepted = refl

route_name-canonical_example :
    (slug ≡ trim (32 ∷ slug)) × (validate_and_normalize_contract_route_name slug ≡ ok slug)
route_name-canonical_example = route_name-canonical (32 ∷ slug) route_accepted
