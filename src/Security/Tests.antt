-- ===== src/Security/Tests.antt =====
-- internal/security at concrete inputs.
use denkeeper.Prelude.{◌≡◌, not}
use denkeeper.Security.{tier_exceeds, new_permission_engine}
use denkeeper.Security.Tiers.{grants_within, tier_exceeds_lem}

tier_exceeds_lem_example :
    tier_exceeds "supervised" "restricted"
    ≡ not (grants_within (new_permission_engine "supervised") (new_permission_engine "restricted"))
tier_exceeds_lem_example = tier_exceeds_lem "supervised" "restricted"
