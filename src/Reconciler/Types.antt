-- ===== src/Reconciler/Types.antt =====
-- The types of go/controlplane/reconciler/reconciler.go. A time is a number of nanoseconds, 0 for the
-- zero time, and a duration too; the differences of the code are written as sums here, which agree
-- while a time.Duration does not saturate (292 years). The webhook's retries and the metrics are left
-- out.
use Prim.Native.String.{◌++◌ as ◌+++◌}
use purser.Prelude.{ℕ, Bool, Option, String}

pub data AutomationLevel : Type 0 where
  automation_auto approval_required notify_only : AutomationLevel

pub data EventType : Type 0 where
  engine_down node_down new_node orphan_deployment : EventType

-- DefaultLevels
abbrev pub default_level : EventType → AutomationLevel
default_level EventType.engine_down = automation_auto
default_level EventType.node_down = approval_required
default_level EventType.orphan_deployment = approval_required
default_level EventType.new_node = notify_only

pub record Config : Type 0 where
  pub interval : ℕ
  pub hysteresis : ℕ
  pub failure_threshold : ℕ
  pub node_timeout : ℕ
  pub action_cooldown : ℕ
  -- the map Levels, `none` for a missing key
  pub levels : EventType → Option AutomationLevel
  pub webhook_url : String

abbrev pub level_or : Option AutomationLevel → AutomationLevel → AutomationLevel
level_or Option.none l = l
level_or (Option.some l) _ = l

unfoldable pub level : Config → EventType → AutomationLevel
level c t = level_or (c.levels t) (default_level t)

pub record Discrepancy : Type 0 where
  pub typ : EventType
  pub dep_id : String
  pub node_id : String

abbrev pub event_name : EventType → String
event_name EventType.engine_down = "engine_down"
event_name EventType.node_down = "node_down"
event_name EventType.new_node = "new_node"
event_name EventType.orphan_deployment = "orphan_deployment"

unfoldable pub key : Discrepancy → String
key d = event_name d.typ +++ ("|" +++ (d.dep_id +++ ("|" +++ d.node_id)))

pub data Reason : Type 0 where
  no_reason within_hysteresis action_cooldown : Reason
  pending : AutomationLevel → Reason

pub record Event : Type 0 where
  pub typ : EventType
  pub dep_id : String
  pub node_id : String
  pub level : AutomationLevel
  pub acted : Bool
  pub reason : Reason

pub record DiscState : Type 0 where
  pub first_seen : ℕ
  pub count : ℕ
  pub seen_this : Bool
  pub last_acted : ℕ

-- the map from keys to states
abbrev pub Tracker : Type 0
Tracker = String → Option DiscState
