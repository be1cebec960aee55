-- ===== src/Planner/Failover/Covered.antt =====
-- What computeFailoverPlans, go/planner/plan/failover.go, covers.
use purser.Prelude.{
  ◌≡◌, ◌≢◌, refl, Bool, true, false, not, ◌||◌, ◌&&◌, Option, none, some, List, [], ◌∷◌, ◌++◌,
  String, str_eq, eq_iff, if◌then◌else◌, Bool-cases, inl, inr, arith, ap, sym, ◌∙◌, subst, All,
}
use purser.Config.Result.{Result, ok, err}
use purser.Planner.Float.{Float64}
use purser.Planner.Types.{Node, Assignment}
use purser.Planner.Ordering.{nodes_excluding}
use purser.Planner.Failover.{
  Alternatives, set, is_present, claim_slots, fill_slots, Primary, compute_failover_plans,
}

abbrev pub is_in : String → List String → Bool
is_in k [] = false
is_in k (j ∷ ids) = str_eq j k || is_in k ids

abbrev pub is_assigned : String → List Assignment → Bool
is_assigned k [] = false
is_assigned k (a ∷ as') = str_eq a.node_id k || is_assigned k as'

is_in-append : (k : String) (xs ys : List String) → is_in k (xs ++ ys) ≡ (is_in k xs || is_in k ys)
is_in-append k [] ys = refl
is_in-append k (x ∷ xs) ys = ground (arith, is_in-append k xs ys)

module _ (F : Float64) where
  -- The remaining nodes are those of another ID.
  pub nodes_excluding-others :
      (nodes : List (Node F)) (id : String) → All (λ n. n.id ≢ id) (nodes_excluding F nodes id)
  unfolding nodes_excluding
  nodes_excluding-others [] id = tt
  nodes_excluding-others (n ∷ nodes) id = elim (Bool-cases (str_eq n.id id)) [
    | inl same ↦ rw same (nodes_excluding-others nodes id)
    | inr other ↦
        rw other (
          λ e. absurd (ground (arith, other, (eq_iff n.id id).1 e)),
          nodes_excluding-others nodes id,
        )
  ]

module _ (F : Float64) {P E : Type 0} (plan_internal : List (Node F) → Result E P)
    (nodes : List (Node F)) where
  abbrev planned : Result E P → Option P
  planned (err e) = none
  planned (ok p) = some p

  abbrev fails : Result E P → Bool
  fails (err e) = true
  fails (ok p) = false

  -- the plan without the node
  abbrev pub without : String → Result E P
  without k = plan_internal (nodes_excluding F nodes k)

  abbrev slot : Bool → Option (Option P) → Option (Option P)
  slot b (some p) = some p
  slot b none = if b then some none else none

  slot-false : (o : Option (Option P)) → o ≡ slot false o
  slot-false none = refl
  slot-false (some p) = refl

  slot_present :
      (b c : Bool) (o : Option (Option P))
      → is_present F plan_internal o ≡ true
      → slot b o ≡ slot c o
  slot_present b c none h = absurd (ground (arith, h))
  slot_present b c (some p) h = refl

  absent : (o : Option (Option P)) → is_present F plan_internal o ≡ false → o ≡ none
  absent none h = refl
  absent (some p) h = absurd (ground (arith, h))

  set_same :
      (j k : String) (p : Option P) (alt : Alternatives F plan_internal)
      → str_eq j k ≡ true
      → set F plan_internal j p alt k ≡ some p
  unfolding set
  set_same j k p alt h = rw h refl

  set_other :
      (j k : String) (p : Option P) (alt : Alternatives F plan_internal)
      → str_eq j k ≡ false
      → set F plan_internal j p alt k ≡ alt k
  unfolding set
  set_other j k p alt h = rw h refl

  -- what the map has at an ID that is the same
  at_same :
      (j k : String) (b : Bool) (alt : Alternatives F plan_internal)
      → str_eq j k ≡ true
      → is_present F plan_internal (alt j) ≡ b
      → is_present F plan_internal (alt k) ≡ b
  at_same j k b alt same h =
      subst (λ i. is_present F plan_internal (alt i) ≡ b) ((eq_iff j k).0 same) h

  claim_slots-alt :
      (k : String) (as' : List Assignment) (alt : Alternatives F plan_internal)
      (order : List String)
      → (claim_slots F plan_internal as' alt order).0 k ≡ slot (is_assigned k as') (alt k)
  unfolding claim_slots
  claim_slots-alt k [] alt order = slot-false (alt k)
  claim_slots-alt k (a ∷ as') alt order =
      let id = a.node_id in
      elim (Bool-cases (is_present F plan_internal (alt id))) [
        | inl claimed ↦ elim (Bool-cases (str_eq id k)) [
          | inl same ↦ rw claimed (
              claim_slots-alt k as' alt order
              ∙ slot_present _ _ (alt k) (at_same id k true alt same claimed))
          | inr other ↦ rw (claimed, other) (claim_slots-alt k as' alt order)
        ]
        | inr free ↦
            let rest = claim_slots-alt k as' (set F plan_internal id none alt) (order ++ id ∷ []) in
            elim (Bool-cases (str_eq id k)) [
              | inl same ↦
                  rw (free, same)
                    (rest
                      ∙ (ap (slot (is_assigned k as')) (set_same id k none alt same)
                          ∙ sym
                              (ap (slot true) (absent (alt k) (at_same id k false alt same free)))))
              | inr other ↦
                  rw (free, other)
                    (rest ∙ ap (slot (is_assigned k as')) (set_other id k none alt other))
            ]
      ]

  claim_slots-order :
      (k : String) (as' : List Assignment) (alt : Alternatives F plan_internal)
      (order : List String)
      → is_in k (claim_slots F plan_internal as' alt order).1
        ≡ (is_in k order || (is_assigned k as' && not (is_present F plan_internal (alt k))))
  unfolding claim_slots
  claim_slots-order k [] alt order = ground arith
  claim_slots-order k (a ∷ as') alt order =
      let id = a.node_id in
      elim (Bool-cases (is_present F plan_internal (alt id))) [
        | inl claimed ↦ elim (Bool-cases (str_eq id k)) [
          | inl same ↦ rw claimed (
              ground (arith, claim_slots-order k as' alt order, at_same id k true alt same claimed))
          | inr other ↦ rw (claimed, other) (claim_slots-order k as' alt order)
        ]
        | inr free ↦
            let alt' = set F plan_internal id none alt in
            let rest = claim_slots-order k as' alt' (order ++ id ∷ []) in
            let longer = is_in-append k order (id ∷ []) in
            elim (Bool-cases (str_eq id k)) [
              | inl same ↦
                  rw free (ground (arith, rest, longer, same, at_same id k false alt same free))
              | inr other ↦ rw free (
                  ground (
                    arith,
                    rest,
                    longer,
                    other,
                    ap (is_present F plan_internal) (set_other id k none alt other),
                  ))
            ]
      ]

  abbrev after_plan : Result E P → Option (Option P) → Option (Option P)
  after_plan (err e) o = o
  after_plan (ok p) o = some (some p)

  -- the slot of `k` when the nodes in `order` are filled in
  abbrev refilled : String → Bool → Option (Option P) → Option (Option P)
  refilled k b o = if b then after_plan (without k) o else o

  collapse : {A : Type 0} → (b : Bool) (x : A) → (if b then x else x) ≡ x
  collapse true x = refl
  collapse false x = refl

  without_same : (d k : String) (r : Result E P) → str_eq d k ≡ true → without d ≡ r → without k ≡ r
  without_same d k r same h = subst (λ j. without j ≡ r) ((eq_iff d k).0 same) h

  fill_step :
      (k d : String) (order : List String) (alt : Alternatives F plan_internal) (lost : List String)
      (r : Result E P)
      → without d ≡ r
      → ((alt' : Alternatives F plan_internal) (lost' : List String)
          → (fill_slots F plan_internal nodes order alt' lost').0 k
            ≡ refilled k (is_in k order) (alt' k))
      → (fill_slots F plan_internal nodes (d ∷ order) alt lost).0 k
        ≡ refilled k (str_eq d k || is_in k order) (alt k)
  unfolding fill_slots
  fill_step k d order alt lost (err e) h rest = elim (Bool-cases (str_eq d k)) [
    | inr other ↦ rw (fill_slots, h, other) (rest alt (lost ++ d ∷ []))
    | inl same ↦
        let wk = without_same d k (err e) same h in
        rw (fill_slots, h, same)
          (rest alt (lost ++ d ∷ [])
            ∙ (ap (λ r. if is_in k order then after_plan r (alt k) else alt k) wk
                ∙ (collapse (is_in k order) (alt k) ∙ sym (ap (λ r. after_plan r (alt k)) wk))))
  ]
  fill_step k d order alt lost (ok p) h rest =
      let alt' = set F plan_internal d (some p) alt in
      elim (Bool-cases (str_eq d k)) [
        | inr other ↦
            rw (fill_slots, h, other)
              (rest alt' lost ∙ ap (refilled k (is_in k order)) (set_other d k (some p) alt other))
        | inl same ↦
            let wk = without_same d k (ok p) same h in
            rw (fill_slots, h, same)
              (rest alt' lost
                ∙ (ap (λ r. if is_in k order then after_plan r (alt' k) else alt' k) wk
                    ∙ (ap (λ o. if is_in k order then some (some p) else o)
                          (set_same d k (some p) alt same)
                        ∙ (collapse (is_in k order) (some (some p))
                            ∙ sym (ap (λ r. after_plan r (alt k)) wk)))))
      ]

  fill_slots-alt :
      (k : String) (order : List String) (alt : Alternatives F plan_internal) (lost : List String)
      → (fill_slots F plan_internal nodes order alt lost).0 k ≡ refilled k (is_in k order) (alt k)
  unfolding fill_slots
  fill_slots-alt k [] alt lost = refl
  fill_slots-alt k (d ∷ order) alt lost =
      fill_step k d order alt lost (without d) refl
        (λ alt' lost'. fill_slots-alt k order alt' lost')

  lost_step :
      (k d : String) (order : List String) (alt : Alternatives F plan_internal) (lost : List String)
      (r : Result E P)
      → without d ≡ r
      → ((alt' : Alternatives F plan_internal) (lost' : List String)
          → is_in k (fill_slots F plan_internal nodes order alt' lost').1
            ≡ (is_in k lost' || (is_in k order && fails (without k))))
      → is_in k (fill_slots F plan_internal nodes (d ∷ order) alt lost).1
        ≡ (is_in k lost || ((str_eq d k || is_in k order) && fails (without k)))
  unfolding fill_slots
  lost_step k d order alt lost (err e) h rest =
      let longer = is_in-append k lost (d ∷ []) in
      let ih = rest alt (lost ++ d ∷ []) in
      elim (Bool-cases (str_eq d k)) [
        | inr other ↦ rw (fill_slots, h) (ground (arith, ih, longer, other))
        | inl same ↦
            rw (fill_slots, h)
              (ground (arith, ih, longer, same, ap fails (without_same d k (err e) same h)))
      ]
  lost_step k d order alt lost (ok p) h rest =
      let ih = rest (set F plan_internal d (some p) alt) lost in
      elim (Bool-cases (str_eq d k)) [
        | inr other ↦ rw (fill_slots, h) (ground (arith, ih, other))
        | inl same ↦
            rw (fill_slots, h) (ground (arith, ih, same, ap fails (without_same d k (ok p) same h)))
      ]

  fill_slots-lost :
      (k : String) (order : List String) (alt : Alternatives F plan_internal) (lost : List String)
      → is_in k (fill_slots F plan_internal nodes order alt lost).1
        ≡ (is_in k lost || (is_in k order && fails (without k)))
  unfolding fill_slots
  fill_slots-lost k [] alt lost = ground arith
  fill_slots-lost k (d ∷ order) alt lost =
      lost_step k d order alt lost (without d) refl
        (λ alt' lost'. fill_slots-lost k order alt' lost')

  -- The failover alternatives of `out`: for each node of the assignments, and no other, what planInternal
  -- makes of the nodes without it, where a nil plan stands for its error; the errors are noted.
  pub record IsCovered (plan out : Primary F plan_internal) : Type 0 where
    pub same_assignments : out.assignments ≡ plan.assignments
    pub alternatives :
        (k : String)
        → out.failover_alt k
          ≡ (if is_assigned k plan.assignments then some (planned (without k)) else none)
    pub noted :
        (k : String)
        → is_in k out.lost
          ≡ (is_in k plan.lost || (is_assigned k plan.assignments && fails (without k)))
    pub remaining : (k : String) → All (λ n. n.id ≢ k) (nodes_excluding F nodes k)

  planned_eq : (r : Result E P) → after_plan r (some none) ≡ some (planned r)
  planned_eq (err e) = refl
  planned_eq (ok p) = refl

  filled :
      (k : String) (b : Bool) (o : Option (Option P))
      → o ≡ none
      → refilled k (false || (b && not (is_present F plan_internal o))) (slot b o)
        ≡ (if b then some (planned (without k)) else none)
  filled k b (some p) h = absurd (ground (arith, h))
  filled k false none h = refl
  filled k true none h = planned_eq (without k)

  -- computeFailoverPlans on a plan without alternatives gives each node of the assignments, and no
  -- other, an alternative: the plan of planInternal on the nodes without it, or nil and a line of the
  -- explanation when there is none. The assignments stay as they are.
  pub compute_failover_plans-IsCovered :
      (plan : Primary F plan_internal)
      → ((k : String) → plan.failover_alt k ≡ none)
      → (out : Primary F plan_internal) × (compute_failover_plans F plan_internal (some plan) nodes
          ≡ some out)
        × IsCovered plan out
  unfolding compute_failover_plans
  compute_failover_plans-IsCovered plan fresh =
      let slots = claim_slots F plan_internal plan.assignments plan.failover_alt [] in
      let filled_slots = fill_slots F plan_internal nodes slots.1 slots.0 plan.lost in
      (
        record plan { failover_alt = filled_slots.0; lost = filled_slots.1 },
        refl,
        record {
          same_assignments = refl;
          alternatives = λ k.
              fill_slots-alt k slots.1 slots.0 plan.lost
              ∙ (ap (λ b. refilled k b (slots.0 k))
                    (claim_slots-order k plan.assignments plan.failover_alt [])
                  ∙ (ap (refilled k _) (claim_slots-alt k plan.assignments plan.failover_alt [])
                      ∙ filled k (is_assigned k plan.assignments) (plan.failover_alt k) (fresh k)));
          noted = λ k. ground (
            arith,
            fill_slots-lost k slots.1 slots.0 plan.lost,
            claim_slots-order k plan.assignments plan.failover_alt [],
            ap (is_present F plan_internal) (fresh k),
          );
          remaining = λ k. nodes_excluding-others F nodes k;
        },
      )
