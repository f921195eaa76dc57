-- ===== src/Graph/Policy/Config.antt =====
-- routecraft_graph/policy.py: the graph configuration and the lane registry, with their checks.
-- They are records of the fields that the source asks for, so the checks of JSON shapes are left
-- out; what is left are the checks of values.
use codex_routecraft.Prelude.{
  ℕ, Bool, true, false, not, ◌&&◌, ◌||◌, String, Option, none, List, [], ◌∷◌, Result, ◌>>◌, require,
  all, ltb, ◌==◌,
}
use codex_routecraft.Graph.Types.{Mode, Risk}

pub record GraphConfig : Type 0 where
  pub mode : Mode
  pub max_parallelism : ℕ
  pub max_node_attempts : ℕ
  pub max_graph_revisions : ℕ
  pub state_store : Option String
  pub checkpoint : Bool

pub record PolicyConfig : Type 0 where
  pub production_policy : String
  pub allowlisted_task_classes : List String

pub record KernelConfig : Type 0 where
  pub config_version : ℕ
  pub graph : GraphConfig
  pub policy : PolicyConfig
  pub control_center_enabled : Bool

pub record Lane : Type 0 where
  pub capability_class : String
  pub cost_class : String
  pub context_class : String
  pub reasoning_levels : List String
  pub allowed_task_types : List String
  pub risk_limit : Risk
  pub provider_mapping : String

-- The keys of `lanes` are distinct: they are a dictionary's.
pub record LaneRegistry : Type 0 where
  pub registry_version : ℕ
  pub lanes : List (String × Lane)

pub data ConfigError : Type 0 where
  unknown_config_version graph_limits_invalid allowlist_invalid lane_registry_invalid
        lane_entry_invalid :
      ConfigError

abbrev pub is_one : ℕ → Bool
is_one n = ltb 0 n && not (ltb 1 n)

unfoldable pub validate_config : KernelConfig → Result ConfigError (Unit {0})
unfolding ◌==◌
validate_config c = do
  require (is_one c.config_version) unknown_config_version
  require
      (not (
        ltb c.graph.max_parallelism 1
        || ltb c.graph.max_node_attempts 1
        || ltb c.graph.max_graph_revisions 1))
      graph_limits_invalid
  require (not (c.policy.production_policy == "")) allowlist_invalid

-- The classes and the mapping are texts that are not empty.
unfoldable pub valid_lane : Lane → Bool
unfolding ◌==◌
valid_lane lane =
    not (lane.capability_class == "")
    && not (lane.cost_class == "")
    && not (lane.context_class == "")
    && not (lane.provider_mapping == "")

unfoldable pub validate_lane_registry : LaneRegistry → Result ConfigError (Unit {0})
unfolding valid_lane all
validate_lane_registry registry = do
  require (is_one registry.registry_version) lane_registry_invalid
  require (all (λ entry. valid_lane entry.1) registry.lanes) lane_entry_invalid

abbrev pub luna : Lane
luna = record {
  capability_class = "bounded";
  cost_class = "low";
  context_class = "small";
  reasoning_levels = "low" ∷ "medium" ∷ "max" ∷ [];
  allowed_task_types = "bounded_implementation" ∷ [];
  risk_limit = Risk.medium;
  provider_mapping = "local-profile:luna";
}

abbrev pub terra : Lane
terra = record {
  capability_class = "judgment";
  cost_class = "medium";
  context_class = "large";
  reasoning_levels = "medium" ∷ "high" ∷ [];
  allowed_task_types = "integration" ∷ "reviewed_implementation" ∷ [];
  risk_limit = Risk.high;
  provider_mapping = "local-profile:terra";
}

abbrev pub sol : Lane
sol = record {
  capability_class = "architecture";
  cost_class = "high";
  context_class = "largest";
  reasoning_levels = "high" ∷ "ultra" ∷ [];
  allowed_task_types = "architecture" ∷ "acceptance" ∷ "fresh_review" ∷ [];
  risk_limit = Risk.critical;
  provider_mapping = "host:parent-sol";
}

abbrev pub default_lane_registry : LaneRegistry
default_lane_registry = record {
  registry_version = 1;
  lanes = ("luna", luna) ∷ ("terra", terra) ∷ ("sol", sol) ∷ [];
}

abbrev pub default_config : KernelConfig
default_config = record {
  config_version = 1;
  graph = record {
    mode = Mode.observe;
    max_parallelism = 3;
    max_node_attempts = 3;
    max_graph_revisions = 3;
    state_store = none;
    checkpoint = true;
  };
  policy = record { production_policy = "routecraft-production-v1"; allowlisted_task_classes = [] };
  control_center_enabled = false;
}
