-- ===== src/Access/Rules.antt =====
-- ENDPOINT_RULES of backend/app/core/security.py.
use ai_repo.Prelude.{String, Option, Bool, true, false, List, [], ◌∷◌}
use ai_repo.Access.{
  Role, analyst, admin, super_admin, AutonomyLevel, level_0, level_1, level_2, EndpointRule,
  first_rule,
}

abbrev pub rule : (method prefix : String) → Role → AutonomyLevel → Bool → EndpointRule
rule method prefix role risk_level approval_required = record {
  method = method;
  prefix = prefix;
  role = role;
  risk_level = risk_level;
  approval_required = approval_required;
}

unfoldable pub endpoint_rules : List EndpointRule
endpoint_rules =
    rule "GET" "/ops/regional-price-snapshot-labels/preview" admin level_1 false
    ∷ rule "GET" "/ops" analyst level_0 false
    ∷ rule "POST" "/ops/neo4j-prune-preview" admin level_1 false
    ∷ rule "POST" "/ops/neo4j-prune-execute" admin level_2 true
    ∷ rule "POST" "/ops/regional-price-snapshot-labels/execute" admin level_1 false
    ∷ rule "POST" "/products/canonical-merge-preview" analyst level_0 false
    ∷ rule "POST" "/products/" admin level_1 false
    ∷ rule "POST" "/catalog/feeds/import" admin level_1 false
    ∷ rule "POST" "/catalog/import/stage" admin level_1 false
    ∷ rule "POST" "/catalog/import/commit" admin level_1 false
    ∷ rule "DELETE" "/catalog/import/staged" admin level_1 false
    ∷ rule "GET" "/catalog/import/staged" analyst level_0 false
    ∷ rule "GET" "/catalog/import/hybrid-review" analyst level_0 false
    ∷ rule "GET" "/catalog/feeds/runs" analyst level_0 false
    ∷ rule "GET" "/catalog/coverage" analyst level_0 false
    ∷ rule "GET" "/catalog/expansion/targets" analyst level_0 false
    ∷ rule "GET" "/catalog/hybrid/integrity" analyst level_0 false
    ∷ rule "POST" "/catalog/canonical/evidence" admin level_1 false
    ∷ rule "POST" "/catalog/canonical/enrich-cpu-specs" admin level_1 false
    ∷ rule "POST" "/catalog/canonical/enrich-specs" admin level_1 false
    ∷ rule "POST" "/catalog/canonical/link-market-evidence" admin level_1 false
    ∷ rule "POST" "/catalog/spec-audit/run" admin level_1 false
    ∷ rule "GET" "/catalog/spec-audit/report" admin level_1 false
    ∷ rule "GET" "/catalog/spec-audit/products" admin level_1 false
    ∷ rule "POST" "/ops/autonomy-queue" admin level_1 false
    ∷ rule "GET" "/approvals" analyst level_0 false
    ∷ rule "GET" "/health/workers" analyst level_0 false
    ∷ rule "GET" "/health/external-sources" analyst level_0 false
    ∷ rule "GET" "/health/catalog" analyst level_0 false
    ∷ rule "GET" "/sources/product-url/known" analyst level_0 false
    ∷ rule "POST" "/pricing/refresh" analyst level_0 false
    ∷ rule "POST" "/pricing/canonicalize" analyst level_0 false
    ∷ rule "POST" "/sources/product-url/preview" analyst level_0 false
    ∷ rule "POST" "/sources/product-url/ingest" admin level_1 false
    ∷ rule "POST" "/sources/product-url/refresh" admin level_1 false
    ∷ rule "POST" "/pricing/sync" admin level_1 false
    ∷ rule "POST" "/pricing/discover" admin level_1 false
    ∷ rule "POST" "/telemetry/ingest" analyst level_1 false
    ∷ rule "POST" "/telemetry/products" analyst level_1 false
    ∷ rule "POST" "/intelligence" analyst level_1 false
    ∷ rule "POST" "/cognition" analyst level_1 false
    ∷ rule "POST" "/governance/refresh" analyst level_1 false
    ∷ rule "POST" "/alignment/refresh" analyst level_1 false
    ∷ rule "POST" "/autonomy/events" analyst level_1 false
    ∷ rule "POST" "/autonomy/run" admin level_1 false
    ∷ rule "POST" "/evolution/refresh" analyst level_1 false
    ∷ rule "POST" "/evolution/policies" super_admin level_2 true
    ∷ rule "POST" "/evolution/rollback" super_admin level_2 true
    ∷ rule "POST" "/approvals" admin level_2 true
    ∷ []

-- `endpoint_rule`, with `str.upper`
unfoldable pub endpoint_rule : (String → String) → (method path : String) → Option EndpointRule
unfolding first_rule endpoint_rules
endpoint_rule upper method path = first_rule (upper method) path endpoint_rules
