-- ===== src/Reconciler/Steps.antt =====
-- What one observation does to the tracker, in Reconcile of
-- go/controlplane/reconciler/reconciler.go.
use purser.Prelude.{
  ℕ, ◌≡◌, ◌⊎◌, inl, inr, refl, Bool, true, false, Option, none, some, String, Bool-cases,
}
use purser.Reconciler.Types.{Config, level, Discrepancy, key, Event, DiscState, Tracker, Reason}
use purser.Reconciler.Pass.{
  put, seen_or_new, counted, is_eligible, is_cooling, event_of, Step, after_dispatch, observe_one,
}

abbrev pub event_key : Event → String
event_key ev = key (record { typ = ev.typ; dep_id = ev.dep_id; node_id = ev.node_id })

module _ {S : Type 0} (dispatch_in : Config → Event → S → Bool × S) (cfg : Config) (now : ℕ) where
  -- The observation was acted on: it was past the thresholds and not cooling, and the dispatch acted.
  pub record IsActed (d : Discrepancy) (t : Tracker) (stored : DiscState) : Type 0 where
    pub eligible : is_eligible cfg now (counted now (key d) t) ≡ true
    pub cool : is_cooling cfg now (counted now (key d) t) ≡ false
    pub at_state : S
    pub dispatched : (dispatch_in cfg (event_of cfg d) at_state).0 ≡ true
    pub stamped : stored.last_acted ≡ now

  pub record StepFacts (d : Discrepancy) (t : Tracker) (one : Step dispatch_in) : Type 0 where
    pub stored : DiscState
    pub tracker_eq : one.tracker ≡ put (key d) stored t
    pub count_eq : stored.count ≡ (counted now (key d) t).count
    pub first_eq : stored.first_seen ≡ (counted now (key d) t).first_seen
    pub seen_eq : stored.seen_this ≡ true
    pub key_eq : event_key one.event ≡ key d
    pub level_eq : one.event.level ≡ level cfg d.typ
    pub typ_eq : one.event.typ ≡ d.typ
    pub outcome :
        ((one.event.acted ≡ false) × (stored.last_acted ≡ (counted now (key d) t).last_acted))
        ⊎ IsActed d t stored

  counted-seen : (k : String) (t : Tracker) → (counted now k t).seen_this ≡ true
  unfolding counted
  counted-seen k t = by_entry (t k)
    where
      by_entry : (o : Option DiscState) → (seen_or_new now o).seen_this ≡ true
      by_entry none = refl
      by_entry (some st) = refl

  idle-StepFacts :
      (d : Discrepancy) (t : Tracker) (s : S) (why : Reason)
      → StepFacts d t (record {
        tracker = put (key d) (counted now (key d) t) t;
        event = record (event_of cfg d) { reason = why };
        outside = s;
      })
  idle-StepFacts d t s why = record {
    stored = counted now (key d) t;
    tracker_eq = refl;
    count_eq = refl;
    first_eq = refl;
    seen_eq = counted-seen (key d) t;
    key_eq = refl;
    level_eq = refl;
    typ_eq = refl;
    outcome = inl (refl, refl);
  }

  after_dispatch-StepFacts :
      (d : Discrepancy) (t : Tracker) (s : S) (acts : Bool) (end : S)
      → is_eligible cfg now (counted now (key d) t) ≡ true
      → is_cooling cfg now (counted now (key d) t) ≡ false
      → (dispatch_in cfg (event_of cfg d) s).0 ≡ acts
      → StepFacts d t (
          after_dispatch dispatch_in now
            (key d)
            (counted now (key d) t)
            (event_of cfg d)
            t
            (acts, end))
  after_dispatch-StepFacts d t s false end ready cool e = idle-StepFacts d t end _
  after_dispatch-StepFacts d t s true end ready cool e = record {
    stored = record (counted now (key d) t) { last_acted = now };
    tracker_eq = refl;
    count_eq = refl;
    first_eq = refl;
    seen_eq = counted-seen (key d) t;
    key_eq = refl;
    level_eq = refl;
    typ_eq = refl;
    outcome =
        inr
          (record { eligible = ready; cool = cool; at_state = s; dispatched = e; stamped = refl });
  }

  pub observe_one-StepFacts :
      (d : Discrepancy) (t : Tracker) (s : S)
      → StepFacts d t (observe_one dispatch_in cfg now d t s)
  unfolding observe_one
  observe_one-StepFacts d t s =
      let st = counted now (key d) t in
      elim (Bool-cases (is_eligible cfg now st)) [
        | inr early ↦ rw (observe_one, early) (idle-StepFacts d t s _)
        | inl ready ↦ elim (Bool-cases (is_cooling cfg now st)) [
          | inl cooling ↦ rw (observe_one, ready, cooling) (idle-StepFacts d t s _)
          | inr cool ↦
              rw (observe_one, ready, cool) (after_dispatch-StepFacts d t s _ _ ready cool refl)
        ]
      ]
