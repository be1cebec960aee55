-- ===== src/Reconciler/Guard.antt =====
-- What Reconcile and dispatch, go/controlplane/reconciler/reconciler.go, need in order to act.
use purser.Prelude.{ℕ, ◌≡◌, true, Option, none, some, ◌⊎◌}
use purser.Reconciler.Types.{automation_auto, Config, Event, Tracker, EventType, engine_down, level}
use purser.Reconciler.Observe.{World}
use purser.Reconciler.Act.{dispatch}
use purser.Reconciler.Pass.{Pass}
use purser.Reconciler.Acted.{IsJustified}

module _ (Json Num : Type 0) (W : World Json Num) where
  -- The configuration sets the type to auto, or sets nothing for it and it is engine_down.
  abbrev pub IsAuto : Config → EventType → Type 0
  IsAuto cfg typ =
      (cfg.levels typ ≡ some automation_auto) ⊎ ((cfg.levels typ ≡ none) × (typ ≡ engine_down))

  -- What an acted event needs: the justification, a configuration that lets its type act, and an
  -- actuator.
  pub record IsAllowed (cfg : Config) (now : ℕ) (t u : Tracker) (ev : Event) : Type 0 where
    pub justified : IsJustified (dispatch Json Num W) cfg now t u ev
    pub auto : ev.level ≡ automation_auto
    pub configured : IsAuto cfg ev.typ
    pub actuator : W.has_actuator ≡ true
