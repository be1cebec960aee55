-- ===== src/Reconciler/Justify.antt =====
-- When a pass of Reconcile, go/controlplane/reconciler/reconciler.go, acts.
use purser.Prelude.{
  ℕ, ◌+◌, ◌≤◌, ◌≡◌, ◌⊎◌, refl, Bool, true, false, Option, none, some, List, [], ◌∷◌, String, subst,
  All, All-map,
}
use purser.Reconciler.Types.{Config, Discrepancy, Event, DiscState, Tracker}
use purser.Reconciler.Pass.{unmark, sweep, observe_one, observe_all, run_pass}
use purser.Reconciler.Steps.{event_key, observe_one-StepFacts}
use purser.Reconciler.Streak.{sweep_seen}
use purser.Reconciler.Acted.{last_of, IsCool, IsJustified, IsCool-before, step-IsJustified}

module _ {S : Type 0} (dispatch_in : Config → Event → S → Bool × S) (cfg : Config) (now : ℕ) where
  abbrev pub Justified : Tracker → Tracker → Event → Type 0
  Justified t u ev = ev.acted ≡ true → IsJustified dispatch_in cfg now t u ev

  -- another view of the two trackers
  retrack :
      (t u t' u' : Tracker) (ev : Event)
      → (IsCool dispatch_in cfg now t (event_key ev) → IsCool dispatch_in cfg now t' (event_key ev))
      → (j : IsJustified dispatch_in cfg now t u ev) → u' (event_key ev) ≡ some j.st
      → IsJustified dispatch_in cfg now t' u' ev
  retrack t u t' u' ev cool j same = record {
    st = j.st;
    tracked = same;
    often = j.often;
    long = j.long;
    cool = cool j.cool;
    recorded = j.recorded;
    seen = j.seen;
    request = j.request;
    at_state = j.at_state;
    same_level = j.same_level;
    configured = j.configured;
    dispatched = j.dispatched;
  }

  observe_all-Justified :
      (observed : List Discrepancy) (t : Tracker) (s : S)
      → All
          (Justified t (observe_all dispatch_in cfg now observed t s).tracker)
          (observe_all dispatch_in cfg now observed t s).detected
  unfolding observe_all
  observe_all-Justified [] t s = tt
  observe_all-Justified (d ∷ observed) t s =
      let one = observe_one dispatch_in cfg now d t s in
      let f = observe_one-StepFacts dispatch_in cfg now d t s in
      let end = observe_all dispatch_in cfg now observed one.tracker one.outside in
      (
        step-IsJustified dispatch_in cfg now d observed t s,
        All-map
            (λ ev h acts.
              retrack one.tracker end.tracker t end.tracker ev
                (IsCool-before dispatch_in cfg now d (event_key ev) t one f) (h acts)
                (h acts).tracked)
            end.detected (observe_all-Justified observed one.tracker one.outside),
      )

  unmark-last : (k : String) (t : Tracker) → last_of (unmark t k) ≡ last_of (t k)
  unfolding unmark
  unmark-last k t = by_entry (t k)
    where
      by_entry :
          (o : Option DiscState)
          → last_of (elim o [ none ↦ none | some st ↦ some (record st { seen_this = false }) ])
            ≡ last_of o
      by_entry none = refl
      by_entry (some st) = refl

  -- An event of a pass is acted on only if its discrepancy is tracked with at least the threshold's
  -- count, was first seen at least the hysteresis before, was never acted on before or not within the
  -- cooldown, and the dispatch of a request at the event's level succeeded; the tracker then holds
  -- the time of the pass as its last action.
  pub run_pass-IsJustified :
      (observed : List Discrepancy) (t : Tracker) (s : S)
      → All
          (Justified t (run_pass dispatch_in cfg now observed t s).tracker)
          (run_pass dispatch_in cfg now observed t s).detected
  unfolding run_pass
  run_pass-IsJustified observed t s =
      let end = observe_all dispatch_in cfg now observed (unmark t) s in
      All-map
        (λ ev h acts.
          let j = h acts in
          retrack (unmark t) end.tracker t (sweep end.tracker) ev
            (subst (λ n. (n ≡ 0) ⊎ (n + cfg.action_cooldown ≤ now)) (unmark-last (event_key ev) t))
            j
            (sweep_seen dispatch_in cfg now (event_key ev) end.tracker (some j.st) j.tracked
              j.seen))
        end.detected (observe_all-Justified observed (unmark t) s)
