-- ===== src/SharedTypes/Routes.antt =====
-- `COMMODITIES`, the route templates and `isCommodityRouteEdgeAllowed` of
-- packages/shared-types/src/index.ts.
use Prim.Native.String.{◌++◌}
use toomoki_cdac_pds.Prelude.{
  String, ℕ, Bool, true, false, Option, none, some, List, [], ◌∷◌, ◌&&◌, str_eq, find, any,
  if◌then◌else◌,
}
use toomoki_cdac_pds.Prelude.Int.{ℤ, pos}
use toomoki_cdac_pds.SharedTypes.Enums.{LotKind, Stage, same_kind}

pub record CommodityDefinition : Type 0 where
  pub name : String
  pub slug : String
  pub default_quality_grade : String
  pub default_top_up_quantity_kg : ℤ
  pub default_monthly_entitlement_kg : ℤ

abbrev commodity_definition : String → String → ℕ → ℕ → CommodityDefinition
commodity_definition name slug top_up monthly = record {
  name = name;
  slug = slug;
  default_quality_grade = "A";
  default_top_up_quantity_kg = pos top_up;
  default_monthly_entitlement_kg = pos monthly;
}

-- `COMMODITIES`
unfoldable pub commodities : List CommodityDefinition
commodities =
    commodity_definition "Rice" "RICE" 10000 25
    ∷ commodity_definition "Wheat" "WHEAT" 7000 10
    ∷ commodity_definition "Dal" "DAL" 2000 2
    ∷ commodity_definition "Sugar" "SUGAR" 2000 2
    ∷ commodity_definition "Cooking Oil" "COOKING-OIL" 1000 1
    ∷ commodity_definition "Kerosene" "KEROSENE" 1000 3
    ∷ []

pub record CommodityRouteLeg : Type 0 where
  pub id : String
  pub from_org : String
  pub to_org : String
  pub stage : Stage
  pub lot : LotKind
  pub requires_authorization : Bool

pub record FpsDelivery : Type 0 where
  pub allocation_id : String
  pub source_godown_id : String
  pub fps_id : String
  pub allocated_qty_kg : ℤ

-- No template has a `transformation`.
pub record CommodityRouteTemplate : Type 0 where
  pub commodity : String
  pub source_lot_id : String
  pub active_lot_id : String
  pub requires_transformation : Bool
  pub fps_delivery : Option FpsDelivery
  pub legs : List CommodityRouteLeg

-- `canonicalFpsRoute`
unfoldable pub canonical_fps_route : String → String → String → CommodityRouteTemplate
canonical_fps_route commodity slug source_lot_id = record {
  commodity = commodity;
  source_lot_id = source_lot_id;
  active_lot_id = source_lot_id;
  requires_transformation = false;
  fps_delivery = some (record {
    allocation_id = "ALLOC-POC-" ++ (slug ++ "-FPS");
    source_godown_id = "GODOWN-B-001";
    fps_id = "FPS-101";
    allocated_qty_kg = pos 300;
  });
  legs =
      record {
        id = "TR-POC-" ++ (slug ++ "-FCI-DEPOT");
        from_org = "FCI-001";
        to_org = "GODOWN-S-001";
        stage = Stage.stage_i;
        lot = LotKind.source;
        requires_authorization = false;
      }
      ∷ record {
        id = "TR-POC-" ++ (slug ++ "-DEPOT-BLOCK");
        from_org = "GODOWN-S-001";
        to_org = "GODOWN-B-001";
        stage = Stage.stage_ii;
        lot = LotKind.source;
        requires_authorization = true;
      }
      ∷ [];
}

-- `COMMODITY_ROUTE_TEMPLATES`
unfoldable pub commodity_route_templates : List CommodityRouteTemplate
unfolding canonical_fps_route
commodity_route_templates =
    canonical_fps_route "Rice" "RICE" "LOT-RICE-2026-001"
    ∷ canonical_fps_route "Wheat" "WHEAT" "LOT-WHEAT-2026-001"
    ∷ canonical_fps_route "Dal" "DAL" "LOT-DAL-2026-001"
    ∷ canonical_fps_route "Sugar" "SUGAR" "LOT-SUGAR-2026-001"
    ∷ canonical_fps_route "Cooking Oil" "COOKING-OIL" "LOT-COOKING-OIL-2026-001"
    ∷ canonical_fps_route "Kerosene" "KEROSENE" "LOT-KEROSENE-2026-001"
    ∷ []

-- `getCommodityRouteTemplate`
unfoldable pub get_commodity_route_template : String → Option CommodityRouteTemplate
unfolding commodity_route_templates
get_commodity_route_template commodity =
    find (λ t. str_eq t.commodity commodity) commodity_route_templates

-- Whether a leg is the edge that is asked for.
unfoldable pub leg_matches : String → String → LotKind → CommodityRouteLeg → Bool
leg_matches from_org to_org kind leg =
    str_eq leg.from_org from_org && str_eq leg.to_org to_org && same_kind leg.lot kind

-- `isCommodityRouteEdgeAllowed`: a commodity with no template may move along any edge.
unfoldable pub is_commodity_route_edge_allowed : String → String → String → LotKind → Bool
unfolding get_commodity_route_template leg_matches
is_commodity_route_edge_allowed commodity from_org to_org kind =
    elim (get_commodity_route_template commodity) [
      | none ↦ true
      | some template ↦ any (leg_matches from_org to_org kind) template.legs
    ]

-- `INITIAL_DEMO_SERIES_ID`
abbrev pub initial_demo_series_id : String
initial_demo_series_id = "POC"

-- `buildSeedLotId` with the default sequence `001`.
unfoldable pub build_seed_lot_id : String → String → String
build_seed_lot_id slug series_id =
    if str_eq series_id initial_demo_series_id
    then "LOT-" ++ (slug ++ "-2026-001")
    else "LOT-" ++ (slug ++ ("-" ++ (series_id ++ "-001")))
