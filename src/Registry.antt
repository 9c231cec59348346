-- ===== src/Registry.antt =====
-- registry/registry.go, registry/service_status.go and registry/version.go: the instances of services,
-- the status that each is in, and the order of their versions. A text that the code only compares with
-- constants is the data type of those constants and one more constructor.
pub mod Versions
pub mod Order
pub mod Newest
mod Tests
use xbase.Prelude.{
  ℕ, ◌+◌, Bool, true, false, Option, none, some, List, [], ◌∷◌, ◌==◌, ◌&&◌, ◌||◌, not,
  if◌then◌else◌,
}
use xbase.Prelude.Int.{ℤ}
use xbase.Dict.{lookup, insert}
use xbase.Registry.Versions.{compare_version, is_newer, is_at_least}

pub data ServiceStatus : Type 0 where
  normal gray on_test : ServiceStatus

-- The text of a status; `other_text` is any that is not one of the three, the empty one included.
pub data StatusText : Type 0 where
  normal_text gray_text test_text other_text : StatusText

unfoldable pub parse_service_status : StatusText → ServiceStatus
parse_service_status gray_text = gray
parse_service_status test_text = on_test
parse_service_status _ = normal

pub data Kind : Type 0 where
  gate node mesh other_kind : Kind

pub data State : Type 0 where
  work busy hang shut other_state : State

-- A ServiceInstance. `status_text` is the metadata under `service_status`, empty where there is none;
-- `endpoint` is the text of the endpoint.
pub record ServiceInstance : Type 0 where
  pub id : ℕ
  pub kind : Kind
  pub alias : ℕ
  pub state : State
  pub events : List ℕ
  pub endpoint : ℕ
  pub weight : ℤ
  pub game_id : ℕ
  pub version : List ℕ
  pub status_text : StatusText

unfoldable pub service_status_of : ServiceInstance → ServiceStatus
unfolding parse_service_status
service_status_of ins = parse_service_status ins.status_text

abbrev pub status_eq : ServiceStatus → ServiceStatus → Bool
status_eq normal normal = true
status_eq gray gray = true
status_eq on_test on_test = true
status_eq _ _ = false

abbrev pub is_node : Kind → Bool
is_node node = true
is_node _ = false

abbrev pub is_gate : Kind → Bool
is_gate gate = true
is_gate _ = false

-- PreferredServiceStatuses.
unfoldable pub preferred_service_statuses : ServiceStatus → List ServiceStatus
preferred_service_statuses on_test = on_test ∷ gray ∷ normal ∷ []
preferred_service_statuses gray = gray ∷ normal ∷ []
preferred_service_statuses normal = normal ∷ []

-- `if cur, ok := max[key]; !ok || CompareVersion(version, cur) > 0 { max[key] = version }`
abbrev pub newer : Option (List ℕ) → List ℕ → Bool
newer none version = true
newer (some cur) version = is_newer version cur

-- The loop of MaxVersionForGame, MaxVersionByKindAlias and MaxVersionForGameByServiceStatus, over the
-- instances that pass a test, grouped by a key.
unfoldable pub max_version_by :
    (ServiceInstance → Bool)
    → (ServiceInstance → ℕ)
    → List (ℕ × List ℕ)
    → List ServiceInstance
    → List (ℕ × List ℕ)
max_version_by counts key versions [] = versions
max_version_by counts key versions (ins ∷ services) =
    max_version_by counts key
      (if counts ins && newer (lookup (key ins) versions) ins.version
        then insert (key ins) ins.version versions
        else versions)
      services

unfoldable pub max_version_for_game : List ServiceInstance → List (ℕ × List ℕ)
unfolding max_version_by
max_version_for_game services =
    max_version_by (λ ins. is_node ins.kind) (λ ins. ins.game_id) [] services

-- Of the gates: the only kind that the dispatcher asks for.
unfoldable pub max_version_by_gate_alias : List ServiceInstance → List (ℕ × List ℕ)
unfolding max_version_by
max_version_by_gate_alias services =
    max_version_by (λ ins. is_gate ins.kind) (λ ins. ins.alias) [] services

-- The inner map of MaxVersionForGameByServiceStatus at one status: of a game, the newest version among
-- the nodes in that status.
unfoldable pub max_version_for_status : ServiceStatus → List ServiceInstance → List (ℕ × List ℕ)
unfolding max_version_by service_status_of
max_version_for_status status services =
    max_version_by (λ ins. is_node ins.kind && status_eq status (service_status_of ins))
      (λ ins. ins.game_id) [] services

-- IsLatestVersion; a key that is missing in a map gives the empty version.
abbrev pub version_or_empty : Option (List ℕ) → List ℕ
version_or_empty none = []
version_or_empty (some version) = version

unfoldable pub is_latest_version : ServiceInstance → List ℕ → Bool
is_latest_version ins max_version = is_at_least ins.version max_version
