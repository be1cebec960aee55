-- ===== src/Reconciler/History.antt =====
-- The tracker over the passes of the loop of go/controlplane/reconciler/reconciler.go.
use purser.Prelude.{ℕ, ◌≡◌, refl, Bool, none, List, [], ◌∷◌, String, ap, ◌∙◌}
use purser.Reconciler.Types.{Config, Discrepancy, Event, Tracker}
use purser.Reconciler.Pass.{run_pass}
use purser.Reconciler.Streak.{occurs, renew, streak, streak_of, run_pass-renew}

module _ {S : Type 0} (dispatch_in : Config → Event → S → Bool × S) (cfg : Config) where
  -- New's tracker and what the passes make of it, the latest first
  unfoldable pub after : List (ℕ × List Discrepancy) → S → Tracker × S
  unfolding run_pass
  after [] s = ((λ k. none), s)
  after ((now, observed) ∷ past) s =
      let (t, s') = after past s in
      let pass = run_pass dispatch_in cfg now observed t s' in (pass.tracker, pass.outside)

  -- After any passes, the count and the first time that the tracker holds for a key are those of its
  -- streak, the unbroken run of latest passes that observed the key: the count is the number of
  -- observations in it. A key without a streak is not tracked.
  pub after-streak :
      (k : String) (past : List (ℕ × List Discrepancy)) (s : S)
      → streak_of ((after past s).0 k) ≡ streak k past
  unfolding after streak
  after-streak k [] s = refl
  after-streak k ((now, observed) ∷ past) s =
      run_pass-renew dispatch_in cfg now k observed (after past s).0 (after past s).1
      ∙ ap (renew now (occurs k observed)) (after-streak k past s)
