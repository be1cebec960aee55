-- ===== src/Reconciler/Pass.antt =====
-- Reconcile, one pass of the loop of go/controlplane/reconciler/reconciler.go, over any way to dispatch.
use purser.Prelude.{
  ℕ, ◌+◌, Bool, true, false, not, ◌&&◌, Option, none, some, List, [], ◌∷◌, String, str_eq, ltb, leb,
  ◌==◌, if◌then◌else◌,
}
use purser.Registry.Rows.{Deployment}
use purser.Reconciler.Types.{
  Config, level, Discrepancy, key, no_reason, within_hysteresis, action_cooldown, pending, Event,
  DiscState, Tracker,
}
use purser.Reconciler.Observe.{World, NodeRow, index_nodes, observe}
use purser.Reconciler.Act.{dispatch}

-- rc.tracker[k] = st
unfoldable pub put : String → DiscState → Tracker → Tracker
put k st t j = if str_eq k j then some st else t j

abbrev pub seen_or_new : ℕ → Option DiscState → DiscState
seen_or_new now none = record { first_seen = now; count = 1; seen_this = true; last_acted = 0 }
seen_or_new now (some st) = record st { seen_this = true; count = st.count + 1 }

-- the state of the discrepancy after it is counted
unfoldable pub counted : ℕ → String → Tracker → DiscState
counted now k t = seen_or_new now (t k)

unfoldable pub is_eligible : Config → ℕ → DiscState → Bool
is_eligible cfg now st =
    leb cfg.failure_threshold st.count && leb (st.first_seen + cfg.hysteresis) now

unfoldable pub is_cooling : Config → ℕ → DiscState → Bool
is_cooling cfg now st = not (st.last_acted == 0) && ltb now (st.last_acted + cfg.action_cooldown)

abbrev pub event_of : Config → Discrepancy → Event
event_of cfg d = record {
  typ = d.typ;
  dep_id = d.dep_id;
  node_id = d.node_id;
  level = level cfg d.typ;
  acted = false;
  reason = no_reason;
}

-- st.seenThis = false for all, and the entries that are deleted at the end
unfoldable pub unmark : Tracker → Tracker
unmark t k = elim (t k) [ none ↦ none | some st ↦ some (record st { seen_this = false }) ]

unfoldable pub sweep : Tracker → Tracker
sweep t k = elim (t k) [ none ↦ none | some st ↦ if st.seen_this then some st else none ]

module _ {S : Type 0} (dispatch_in : Config → Event → S → Bool × S) where
  -- The tracker, the report's Detected and the state outside.
  pub record Step : Type 0 where
    pub tracker : Tracker
    pub event : Event
    pub outside : S

  abbrev pub after_dispatch : ℕ → String → DiscState → Event → Tracker → Bool × S → Step
  after_dispatch now k st ev t (true, s) = record {
    tracker = put k (record st { last_acted = now }) t;
    event = record ev { acted = true };
    outside = s;
  }
  after_dispatch now k st ev t (false, s) = record {
    tracker = put k st t;
    event = record ev { reason = pending ev.level };
    outside = s;
  }

  -- the body of the loop over what is observed
  unfoldable pub observe_one : Config → ℕ → Discrepancy → Tracker → S → Step
  unfolding put counted is_eligible is_cooling
  observe_one cfg now d t s =
      let k = key d in
      let st = counted now k t in
      let ev = event_of cfg d in
      if is_eligible cfg now st && not (is_cooling cfg now st)
      then after_dispatch now k st ev t (dispatch_in cfg ev s)
      else if not (is_eligible cfg now st)
      then record {
        tracker = put k st t;
        event = record ev { reason = within_hysteresis };
        outside = s;
      }
      else record {
        tracker = put k st t;
        event = record ev { reason = action_cooldown };
        outside = s;
      }

  pub record Pass : Type 0 where
    pub tracker : Tracker
    pub detected : List Event
    pub outside : S

  unfoldable pub observe_all : Config → ℕ → List Discrepancy → Tracker → S → Pass
  unfolding observe_one
  observe_all cfg now [] t s = record { tracker = t; detected = []; outside = s }
  observe_all cfg now (d ∷ observed) t s =
      let one = observe_one cfg now d t s in
      let rest = observe_all cfg now observed one.tracker one.outside in
      record rest { detected = one.event ∷ rest.detected }

  -- from the update of the tracker to the deletion of what is healed
  unfoldable pub run_pass : Config → ℕ → List Discrepancy → Tracker → S → Pass
  unfolding observe_all unmark sweep
  run_pass cfg now observed t s =
      let pass = observe_all cfg now observed (unmark t) s in
      record pass { tracker = sweep pass.tracker }

-- the report's Acted
unfoldable pub acted_events : List Event → List Event
acted_events [] = []
acted_events (ev ∷ evs) = let rest = acted_events evs in if ev.acted then ev ∷ rest else rest

module _ (Json Num : Type 0) (W : World Json Num) where
  abbrev pub reconcile_on :
      Config
      → ℕ
      → Tracker
      → W.State
      → Option (List (Deployment Json ℕ))
      → Option (List (NodeRow Json Num))
      → Option (Pass (dispatch Json Num W))
  reconcile_on cfg now t s none nodes = none
  reconcile_on cfg now t s (some deps) none = none
  reconcile_on cfg now t s (some deps) (some nodes) = some (
      run_pass (dispatch Json Num W) cfg now
        (observe Json Num W cfg s deps (index_nodes Json Num [] nodes) now) t s)

  -- `none` is the error of a list call.
  unfoldable pub reconcile : Config → ℕ → Tracker → W.State → Option (Pass (dispatch Json Num W))
  unfolding run_pass observe dispatch index_nodes
  reconcile cfg now t s = reconcile_on cfg now t s (W.list_deployments s) (W.list_nodes s)
