-- ===== src/Reconciler/Streak.antt =====
-- The tracker of Reconcile, go/controlplane/reconciler/reconciler.go, counts streaks.
use purser.Prelude.{
  ℕ, zero, suc, ◌+◌, ◌≤◌, ◌≡◌, ◌⊎◌, inl, inr, refl, Bool, true, false, Option, none, some, List, [],
  ◌∷◌, String, str_eq, eq_iff, if◌then◌else◌, arith, Bool-cases, ap, sym, ◌∙◌, subst,
}
use purser.Reconciler.Types.{Config, Discrepancy, key, Event, DiscState, Tracker}
use purser.Reconciler.Pass.{
  put, seen_or_new, counted, unmark, sweep, Step, observe_one, Pass, observe_all, run_pass,
}
use purser.Reconciler.Steps.{StepFacts, observe_one-StepFacts}

-- how often the observations of a pass have the key
unfoldable pub occurs : String → List Discrepancy → ℕ
occurs k [] = 0
occurs k (d ∷ observed) =
    let rest = occurs k observed in if str_eq (key d) k then suc rest else rest

-- A count, and the time of the first observation.
abbrev pub Streak : Type 0
Streak = Option (ℕ × ℕ)

abbrev pub once_more : ℕ → Streak → Streak
once_more now none = some (1, now)
once_more now (some (count, first)) = some (count + 1, first)

abbrev pub advance : ℕ → ℕ → Streak → Streak
advance now zero o = o
advance now (suc n) o = advance now n (once_more now o)

abbrev pub renew : ℕ → ℕ → Streak → Streak
renew now zero o = none
renew now (suc n) o = advance now (suc n) o

-- The streak of a key over the passes, the latest first: how often it was observed in the unbroken
-- run of latest passes that observed it, and when the first of these was.
unfoldable pub streak : String → List (ℕ × List Discrepancy) → Streak
unfolding occurs
streak k [] = none
streak k ((now, observed) ∷ past) = renew now (occurs k observed) (streak k past)

abbrev pub streak_of : Option DiscState → Streak
streak_of none = none
streak_of (some st) = some (st.count, st.first_seen)

abbrev pub IsSeen : Option DiscState → Type 0
IsSeen none = ⊥
IsSeen (some st) = st.seen_this ≡ true

pub put_same :
    (j k : String) (st : DiscState) (t : Tracker) → str_eq j k ≡ true → put j st t k ≡ some st
unfolding put
put_same j k st t h = rw h refl

put_other : (j k : String) (st : DiscState) (t : Tracker) → str_eq j k ≡ false → put j st t k ≡ t k
unfolding put
put_other j k st t h = rw h refl

streak_of-counted :
    (now : ℕ) (o : Option DiscState)
    → some ((seen_or_new now o).count, (seen_or_new now o).first_seen) ≡ once_more now (streak_of o)
streak_of-counted now none = refl
streak_of-counted now (some st) = refl

module _ {S : Type 0} (dispatch_in : Config → Event → S → Bool × S) (cfg : Config) (now : ℕ) where
  -- an observation of the key advances it, and leaves the other keys alone
  step_streak :
      (d : Discrepancy) (k : String) (t : Tracker) (one : Step dispatch_in)
      → StepFacts dispatch_in cfg now d t one
      → str_eq (key d) k ≡ true
      → (streak_of (one.tracker k) ≡ once_more now (streak_of (t k))) × IsSeen (one.tracker k)
  unfolding counted
  step_streak d k t one f same =
      let at : one.tracker k ≡ some f.stored =
        ap (λ t'. t' k) f.tracker_eq ∙ put_same (key d) k f.stored t same in
      let there : key d ≡ k = (eq_iff (key d) k).0 same in
      (
        ap streak_of at
            ∙ (ap some (
                  ap (λ c. (c, f.stored.first_seen)) f.count_eq
                  ∙ ap (λ x. ((counted now (key d) t).count, x)) f.first_eq)
                ∙ (streak_of-counted now (t (key d))
                    ∙ ap (λ j. once_more now (streak_of (t j))) there)),
        subst IsSeen (sym at) f.seen_eq,
      )

  pub other_key :
      (d : Discrepancy) (k : String) (t : Tracker) (one : Step dispatch_in)
      → StepFacts dispatch_in cfg now d t one
      → str_eq (key d) k ≡ false
      → one.tracker k ≡ t k
  other_key d k t one f other = ap (λ t'. t' k) f.tracker_eq ∙ put_other (key d) k f.stored t other

  all_streak :
      (k : String) (observed : List Discrepancy) (t : Tracker) (s : S)
      → streak_of ((observe_all dispatch_in cfg now observed t s).tracker k)
        ≡ advance now (occurs k observed) (streak_of (t k))
  unfolding observe_all occurs
  all_streak k [] t s = refl
  all_streak k (d ∷ observed) t s =
      let one = observe_one dispatch_in cfg now d t s in
      let f = observe_one-StepFacts dispatch_in cfg now d t s in
      let rest = all_streak k observed one.tracker one.outside in
      elim (Bool-cases (str_eq (key d) k)) [
        | inl same ↦
            rw same (rest ∙ ap (advance now (occurs k observed)) (step_streak d k t one f same).0)
        | inr other ↦ rw other (
            rest
            ∙ ap (λ o. advance now (occurs k observed) (streak_of o)) (other_key d k t one f other))
      ]

  pub observe_all-IsSeen :
      (k : String) (observed : List Discrepancy) (t : Tracker) (s : S)
      → IsSeen (t k) ⊎ (1 ≤ occurs k observed)
      → IsSeen ((observe_all dispatch_in cfg now observed t s).tracker k)
  unfolding observe_all occurs
  observe_all-IsSeen k [] t s (inl h) = h
  observe_all-IsSeen k [] t s (inr h) = absurd (omega arith)
  observe_all-IsSeen k (d ∷ observed) t s h =
      let one = observe_one dispatch_in cfg now d t s in
      let f = observe_one-StepFacts dispatch_in cfg now d t s in
      observe_all-IsSeen k observed one.tracker one.outside (elim (Bool-cases (str_eq (key d) k)) [
        | inl same ↦ inl (step_streak d k t one f same).1
        | inr other ↦ later one f other (rw (occurs, other) at h)
      ])
    where
      later :
          (one : Step dispatch_in)
          → StepFacts dispatch_in cfg now d t one
          → str_eq (key d) k ≡ false
          → IsSeen (t k) ⊎ (1 ≤ occurs k observed)
          → IsSeen (one.tracker k) ⊎ (1 ≤ occurs k observed)
      later one f other (inl h) = inl (subst IsSeen (sym (other_key d k t one f other)) h)
      later one f other (inr h) = inr h

  all_kept :
      (k : String) (observed : List Discrepancy) (t : Tracker) (s : S)
      → occurs k observed ≡ 0
      → (observe_all dispatch_in cfg now observed t s).tracker k ≡ t k
  unfolding observe_all occurs
  all_kept k [] t s h = refl
  all_kept k (d ∷ observed) t s h =
      let one = observe_one dispatch_in cfg now d t s in
      let f = observe_one-StepFacts dispatch_in cfg now d t s in
      elim (Bool-cases (str_eq (key d) k)) [
        | inl same ↦ absurd (omega (arith, rw (occurs, same) at h))
        | inr other ↦
            all_kept k observed one.tracker one.outside (rw (occurs, other) at h)
            ∙ other_key d k t one f other
      ]

  pub sweep_seen :
      (k : String) (t : Tracker) (o : Option DiscState) → t k ≡ o → IsSeen o → sweep t k ≡ o
  unfolding sweep
  sweep_seen k t none e h = absurd h
  sweep_seen k t (some st) e h = rw (sweep, e, h) refl

  sweep_unmarked : (k : String) (t u : Tracker) → u k ≡ unmark t k → sweep u k ≡ none
  unfolding sweep unmark
  sweep_unmarked k t u e = by_entry (t k) (u k) e
    where
      by_entry :
          (o p : Option DiscState)
          → p ≡ elim o [ none ↦ none | some st ↦ some (record st { seen_this = false }) ]
          → elim p as (λ _. Option DiscState) [
            | none ↦ none
            | some st ↦ if st.seen_this then some st else none
          ]
            ≡ none
      by_entry none p h = rw h refl
      by_entry (some st) p h = rw h refl

  unmark_streak : (k : String) (t : Tracker) → streak_of (unmark t k) ≡ streak_of (t k)
  unfolding unmark
  unmark_streak k t = by_entry (t k)
    where
      by_entry :
          (o : Option DiscState)
          → streak_of (elim o [ none ↦ none | some st ↦ some (record st { seen_this = false }) ])
            ≡ streak_of o
      by_entry none = refl
      by_entry (some st) = refl

  pub run_pass-renew :
      (k : String) (observed : List Discrepancy) (t : Tracker) (s : S)
      → streak_of ((run_pass dispatch_in cfg now observed t s).tracker k)
        ≡ renew now (occurs k observed) (streak_of (t k))
  unfolding run_pass
  run_pass-renew k observed t s = by_count (occurs k observed) refl
    where
      pass : Pass dispatch_in
      pass = observe_all dispatch_in cfg now observed (unmark t) s

      by_count :
          (n : ℕ)
          → occurs k observed ≡ n
          → streak_of (sweep pass.tracker k) ≡ renew now n (streak_of (t k))
      by_count zero h =
          ap streak_of (sweep_unmarked k t pass.tracker (all_kept k observed (unmark t) s h))
      by_count (suc n) h =
          ap streak_of (
            sweep_seen k pass.tracker (pass.tracker k) refl
              (observe_all-IsSeen k observed (unmark t) s (inr (omega arith))))
          ∙ (all_streak k observed (unmark t) s
              ∙ (ap (λ m. advance now m (streak_of (unmark t k))) h
                  ∙ ap (advance now (suc n)) (unmark_streak k t)))
