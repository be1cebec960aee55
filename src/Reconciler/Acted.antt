-- ===== src/Reconciler/Acted.antt =====
-- When Reconcile, go/controlplane/reconciler/reconciler.go, acts.
use purser.Prelude.{
  ℕ, ◌+◌, ◌≤◌, ◌≡◌, ◌⊎◌, inl, inr, refl, Bool, true, false, Option, none, some, List, [], ◌∷◌,
  String, str_eq, eq_iff, arith, Bool-cases, ap, sym, ◌∙◌, subst,
}
use purser.Reconciler.Types.{level, Config, Discrepancy, key, Event, DiscState, Tracker}
use purser.Reconciler.Pass.{
  put, seen_or_new, counted, is_eligible, is_cooling, event_of, Step, observe_one, Pass,
  observe_all,
}
use purser.Reconciler.Steps.{event_key, StepFacts, observe_one-StepFacts}
use purser.Reconciler.Streak.{put_same, other_key}

-- when the key was last acted on, 0 if it was not
abbrev pub last_of : Option DiscState → ℕ
last_of none = 0
last_of (some st) = st.last_acted

module _ {S : Type 0} (dispatch_in : Config → Event → S → Bool × S) (cfg : Config) (now : ℕ) where
  abbrev pub IsCool : Tracker → String → Type 0
  IsCool t k = (last_of (t k) ≡ 0) ⊎ (last_of (t k) + cfg.action_cooldown ≤ now)

  -- the state of a key later in the pass
  abbrev Grows : DiscState → Option DiscState → Type 0
  Grows st o =
      (st' : DiscState) × (o ≡ some st')
      × (st.count ≤ st'.count)
      × (st'.first_seen ≡ st.first_seen)
      × ((st'.last_acted ≡ st.last_acted) ⊎ (st'.last_acted ≡ now))
      × (st.seen_this ≡ true → st'.seen_this ≡ true)

  -- What an acted event of a pass from the tracker `t` to `u` says: the key was seen often and long
  -- enough, its last action is long enough ago, and the action is recorded.
  pub record IsJustified (t u : Tracker) (ev : Event) : Type 0 where
    pub st : DiscState
    pub tracked : u (event_key ev) ≡ some st
    pub often : cfg.failure_threshold ≤ st.count
    pub long : st.first_seen + cfg.hysteresis ≤ now
    pub cool : IsCool t (event_key ev)
    pub recorded : st.last_acted ≡ now
    pub seen : st.seen_this ≡ true
    pub request : Event
    pub at_state : S
    pub same_level : request.level ≡ ev.level
    pub configured : ev.level ≡ level cfg ev.typ
    pub dispatched : (dispatch_in cfg request at_state).0 ≡ true

  counted-last : (k : String) (t : Tracker) → (counted now k t).last_acted ≡ last_of (t k)
  unfolding counted
  counted-last k t = by_entry (t k)
    where
      by_entry : (o : Option DiscState) → (seen_or_new now o).last_acted ≡ last_of o
      by_entry none = refl
      by_entry (some st) = refl

  counted-entry :
      (k : String) (t : Tracker) (st : DiscState)
      → t k ≡ some st
      → counted now k t ≡ record st { seen_this = true; count = st.count + 1 }
  unfolding counted
  counted-entry k t st e = ap (seen_or_new now) e

  step-Grows :
      (d : Discrepancy) (k : String) (t : Tracker) (one : Step dispatch_in) (st : DiscState)
      → StepFacts dispatch_in cfg now d t one
      → t k ≡ some st
      → Grows st (one.tracker k)
  step-Grows d k t one st f e = elim (Bool-cases (str_eq (key d) k)) [
    | inr other ↦ (
      st,
      other_key dispatch_in cfg now d k t one f other ∙ e,
      omega arith,
      refl,
      inl refl,
      λ h. h,
    )
    | inl same ↦
        let c = counted-entry (key d) t st (ap t ((eq_iff (key d) k).0 same) ∙ e) in
        (
          f.stored,
          ap (λ t'. t' k) f.tracker_eq ∙ put_same (key d) k f.stored t same,
          omega (arith, f.count_eq, ap (λ x. x.count) c),
          f.first_eq ∙ ap (λ x. x.first_seen) c,
          elim f.outcome [
            | inl idle ↦ inl (idle.1 ∙ ap (λ x. x.last_acted) c)
            | inr acted ↦ inr acted.stamped
          ],
          λ _. f.seen_eq,
        )
  ]

  observe_all-Grows :
      (k : String) (observed : List Discrepancy) (t : Tracker) (s : S) (st : DiscState)
      → t k ≡ some st
      → Grows st ((observe_all dispatch_in cfg now observed t s).tracker k)
  unfolding observe_all
  observe_all-Grows k [] t s st e = (st, e, omega arith, refl, inl refl, λ h. h)
  observe_all-Grows k (d ∷ observed) t s st e =
      let one = observe_one dispatch_in cfg now d t s in
      let f = observe_one-StepFacts dispatch_in cfg now d t s in
      let (st1, e1, more1, first1, last1, seen1) = step-Grows d k t one st f e in
      let (st2, e2, more2, first2, last2, seen2) =
        observe_all-Grows k observed one.tracker one.outside st1 e1 in
      (st2, e2, omega arith, first2 ∙ first1, ground (arith, last1, last2), λ h. seen2 (seen1 h))

  is_cooling-IsCool :
      (k : String) (t : Tracker) → is_cooling cfg now (counted now k t) ≡ false → IsCool t k
  unfolding is_cooling
  is_cooling-IsCool k t h = ground (arith, counted-last k t)

  -- what is cool after a step was so before it
  pub IsCool-before :
      (d : Discrepancy) (k : String) (t : Tracker) (one : Step dispatch_in)
      → StepFacts dispatch_in cfg now d t one
      → IsCool one.tracker k
      → IsCool t k
  IsCool-before d k t one f cool = elim (Bool-cases (str_eq (key d) k)) [
    | inr other ↦
        subst (λ o. (last_of o ≡ 0) ⊎ (last_of o + cfg.action_cooldown ≤ now))
          (other_key dispatch_in cfg now d k t one f other) cool
    | inl same ↦
        let there : key d ≡ k = (eq_iff (key d) k).0 same in
        let at : one.tracker k ≡ some f.stored =
          ap (λ t'. t' k) f.tracker_eq ∙ put_same (key d) k f.stored t same in
        elim f.outcome [
          | inl idle ↦
              subst (λ n. (n ≡ 0) ⊎ (n + cfg.action_cooldown ≤ now))
                (ap last_of at
                  ∙ (idle.1 ∙ (counted-last (key d) t ∙ ap (λ j. last_of (t j)) there)))
                cool
          | inr acted ↦ subst (IsCool t) there (is_cooling-IsCool (key d) t acted.cool)
        ]
  ]

  pub step-IsJustified :
      (d : Discrepancy) (observed : List Discrepancy) (t : Tracker) (s : S)
      → let one = observe_one dispatch_in cfg now d t s in
        let end = observe_all dispatch_in cfg now observed one.tracker one.outside in
        one.event.acted ≡ true → IsJustified t end.tracker one.event
  unfolding is_eligible
  step-IsJustified d observed t s acts =
      by_outcome (observe_one-StepFacts dispatch_in cfg now d t s) acts
    where
      one : Step dispatch_in
      one = observe_one dispatch_in cfg now d t s

      end : Pass dispatch_in
      end = observe_all dispatch_in cfg now observed one.tracker one.outside

      self : (st : DiscState) → put (key d) st t (key d) ≡ some st
      self st = put_same (key d) (key d) st t ((eq_iff (key d) (key d)).1 refl)

      by_outcome :
          StepFacts dispatch_in cfg now d t one
          → one.event.acted ≡ true
          → IsJustified t end.tracker one.event
      by_outcome f acts = elim f.outcome [
        | inl idle ↦ absurd (ground (arith, idle.0, acts))
        | inr acted ↦
            let (st, e, more, first, last, seen) =
              observe_all-Grows (key d) observed one.tracker one.outside f.stored
                (ap (λ t'. t' (key d)) f.tracker_eq ∙ self f.stored) in
            record {
              st = st;
              tracked = ap end.tracker f.key_eq ∙ e;
              often = ground (arith, acted.eligible, f.count_eq, more);
              long = ground (arith, acted.eligible, f.first_eq, first);
              cool = subst (IsCool t) (sym f.key_eq) (is_cooling-IsCool (key d) t acted.cool);
              recorded = ground (arith, last, acted.stamped);
              seen = seen f.seen_eq;
              request = event_of cfg d;
              at_state = acted.at_state;
              same_level = sym f.level_eq;
              configured = f.level_eq ∙ ap (level cfg) (sym f.typ_eq);
              dispatched = acted.dispatched;
            }
      ]
