-- ===== src/Planner/Ordering/Nearest.antt =====
-- nearestNeighborOrder, go/planner/plan/ordering.go, visits every node once.
use mathlib.Core.List.{Perm}
use mathlib.Core.List.Perm
use mathlib.Core.Option.{some-injective}
use purser.Prelude.{
  ℕ, zero, suc, ◌+◌, ◌≡◌, ◌⊎◌, inl, inr, refl, Bool, true, false, Option, none, some, List, [], ◌∷◌,
  ◌++◌, map, Bool-cases, Option-cases, arith, ap, sym, ◌∙◌, subst, length, get_elem?, String,
  none-ne-some, ◌≢◌,
}
use mathlib.Core.List.{append_assoc, append-nil}
use purser.Planner.Float.{Float64, OrderLaws}
use purser.Planner.Types.{Node, Link, ModelSpec}
use purser.Planner.Ordering.{
  mark, edge_cost, nearest_from, nearest_loop, nearest_neighbor_order, nearest_neighbor_2opt,
  two_opt_improve,
}
use purser.Planner.Ordering.Swaps.{StartsWith}
use purser.Planner.Ordering.Improve.{Margin}
use purser.Planner.Ordering.Settled.{two_opt_improve-IsRefined}

module _ {ℓ} {A : Type ℓ} where
  -- the entries that are not marked
  abbrev pub left_of : List Bool → List A → List A
  left_of [] xs = []
  left_of (v ∷ vs) [] = []
  left_of (true ∷ vs) (x ∷ xs) = left_of vs xs
  left_of (false ∷ vs) (x ∷ xs) = x ∷ left_of vs xs

  mark-Perm :
      (k : ℕ) (vs : List Bool) (xs : List A) (x : A)
      → get_elem? vs k ≡ some false
      → get_elem? xs k ≡ some x
      → Perm (left_of vs xs) (x ∷ left_of (mark k vs) xs)
  unfolding mark
  mark-Perm k [] xs x e at = absurd (none-ne-some _ refl e)
  mark-Perm k (v ∷ vs) [] x e at = absurd (none-ne-some _ refl at)
  mark-Perm zero (true ∷ vs) (y ∷ xs) x e at = absurd (ground (arith, e))
  mark-Perm zero (false ∷ vs) (y ∷ xs) x e at =
      subst (λ z. Perm (y ∷ left_of vs xs) (z ∷ left_of vs xs)) (some-injective _ _ at)
        (Perm.refl _)
  mark-Perm (suc k) (true ∷ vs) (y ∷ xs) x e at = mark-Perm k vs xs x e at
  mark-Perm (suc k) (false ∷ vs) (y ∷ xs) x e at =
      Perm.trans (Perm.cons y (mark-Perm k vs xs x e at)) (Perm.swap x y _)

  mark-length :
      (k : ℕ) (vs : List Bool) (xs : List A) (x : A)
      → get_elem? vs k ≡ some false
      → get_elem? xs k ≡ some x
      → length (left_of vs xs) ≡ suc (length (left_of (mark k vs) xs))
  unfolding mark
  mark-length k [] xs x e at = absurd (none-ne-some _ refl e)
  mark-length k (v ∷ vs) [] x e at = absurd (none-ne-some _ refl at)
  mark-length zero (true ∷ vs) (y ∷ xs) x e at = absurd (ground (arith, e))
  mark-length zero (false ∷ vs) (y ∷ xs) x e at = refl
  mark-length (suc k) (true ∷ vs) (y ∷ xs) x e at = mark-length k vs xs x e at
  mark-length (suc k) (false ∷ vs) (y ∷ xs) x e at = ap suc (mark-length k vs xs x e at)

  empty_of_length : (xs : List A) → length xs ≡ 0 → xs ≡ []
  empty_of_length [] e = refl
  empty_of_length (x ∷ xs) e = absurd (omega arith)

  left_of-fresh : (xs : List A) → left_of (map (λ x. false) xs) xs ≡ xs
  left_of-fresh [] = refl
  left_of-fresh (x ∷ xs) = ap (λ ys. x ∷ ys) (left_of-fresh xs)

module _ (F : Float64) (model : ModelSpec F) (links : List (Link F)) where
  -- Every hop costs a finite time.
  abbrev pub HopsAreFinite : Type 0
  HopsAreFinite = (a b : String) → F.lt (edge_cost F a b model links) F.inf ≡ true

  -- The index, counted from `k`, of a node that is not visited.
  record IsOpenAt (k : ℕ) (vs : List Bool) (nodes : List (Node F)) (found : Option ℕ) : Type 0 where
    at : ℕ
    node : Node F
    index : found ≡ some (k + at)
    open_there : get_elem? vs at ≡ some false
    node_there : get_elem? nodes at ≡ some node

  shift-IsOpenAt :
      (k : ℕ) (v : Bool) (n : Node F) (vs : List Bool) (nodes : List (Node F)) (found : Option ℕ)
      → IsOpenAt (suc k) vs nodes found
      → IsOpenAt k (v ∷ vs) (n ∷ nodes) found
  shift-IsOpenAt k v n vs nodes found o = record {
    at = suc o.at;
    node = o.node;
    index = o.index ∙ ap some (omega arith);
    open_there = o.open_there;
    node_there = o.node_there;
  }

  nearest-IsOpenAt :
      (cur : String) (k : ℕ) (next : Option ℕ) (best : F.T) (vs : List Bool) (nodes : List (Node F))
      → let found = nearest_from F model links cur k next best vs nodes in
        (found ≡ next) ⊎ IsOpenAt k vs nodes found
  unfolding nearest_from
  nearest-IsOpenAt cur k next best [] nodes = inl refl
  nearest-IsOpenAt cur k next best (v ∷ vs) [] = inl refl
  nearest-IsOpenAt cur k next best (true ∷ vs) (n ∷ nodes) =
      elim (nearest-IsOpenAt cur (suc k) next best vs nodes) [
        | inl same ↦ inl same
        | inr o ↦ inr (shift-IsOpenAt k true n vs nodes _ o)
      ]
  nearest-IsOpenAt cur k next best (false ∷ vs) (n ∷ nodes) =
      let c = edge_cost F cur n.id model links in
      elim (Bool-cases (F.lt c best)) [
        | inr worse ↦ rw worse (elim (nearest-IsOpenAt cur (suc k) next best vs nodes) [
          | inl same ↦ inl same
          | inr o ↦ inr (shift-IsOpenAt k false n vs nodes _ o)
        ])
        | inl better ↦ rw better (elim (nearest-IsOpenAt cur (suc k) (some k) c vs nodes) [
          | inl same ↦ inr (record {
            at = 0;
            node = n;
            index = same ∙ ap some (omega arith);
            open_there = refl;
            node_there = refl;
          })
          | inr o ↦ inr (shift-IsOpenAt k false n vs nodes _ o)
        ])
      ]

  some-stays :
      (cur : String) (k j : ℕ) (best : F.T) (vs : List Bool) (nodes : List (Node F))
      → nearest_from F model links cur k (some j) best vs nodes ≢ none
  some-stays cur k j best vs nodes e = elim (nearest-IsOpenAt cur k (some j) best vs nodes) [
    | inl same ↦ none-ne-some _ e same
    | inr o ↦ none-ne-some _ e o.index
  ]

  -- a node that is left is found
  nearest-found :
      (finite : HopsAreFinite) (cur : String) (k : ℕ) (vs : List Bool) (nodes : List (Node F))
      → nearest_from F model links cur k none F.inf vs nodes ≡ none
      → left_of vs nodes ≡ []
  unfolding nearest_from
  nearest-found finite cur k [] nodes e = refl
  nearest-found finite cur k (v ∷ vs) [] e = refl
  nearest-found finite cur k (true ∷ vs) (n ∷ nodes) e = nearest-found finite cur (suc k) vs nodes e
  nearest-found finite cur k (false ∷ vs) (n ∷ nodes) e = absurd (
      some-stays cur (suc k) k (edge_cost F cur n.id model links) vs nodes
        (rw (nearest_from, finite cur n.id) at e))

  -- A path over all of the nodes that starts with the host.
  abbrev pub IsPath : Node F → List (Node F) → Option (List (Node F)) → Type 0
  IsPath h nodes o = (out : List (Node F)) × (o ≡ some out) × Perm nodes out × StartsWith h out

  loop-IsPath :
      (finite : HopsAreFinite) (left : ℕ) (h : Node F) (nodes : List (Node F)) (vs : List Bool)
      (cur : String) (route : List (Node F))
      → Perm nodes (route ++ left_of vs nodes)
      → length (left_of vs nodes) ≡ left
      → StartsWith h route
      → IsPath h nodes (nearest_loop F model links left nodes vs cur route)
  unfolding nearest_loop
  loop-IsPath finite zero h nodes vs cur route p e s = (
    route,
    refl,
    subst (λ r. Perm nodes r) (ap (λ r. route ++ r) (empty_of_length _ e) ∙ append-nil route) p,
    s,
  )
  loop-IsPath finite (suc left) h nodes vs cur route p e s =
      let found = nearest_from F model links cur 0 none F.inf vs nodes in
      elim (Option-cases found) [
        | inl nothing ↦
            absurd (omega (arith, e, ap length (nearest-found finite cur 0 vs nodes nothing)))
        | inr (k, at) ↦ elim (nearest-IsOpenAt cur 0 none F.inf vs nodes) [
          | inl same ↦ absurd (none-ne-some _ same at)
          | inr o ↦
              let there : k ≡ o.at = some-injective _ _ (sym at ∙ o.index) ∙ omega arith in
              rw (nearest_loop, at, ap (get_elem? nodes) there ∙ o.node_there)
                (loop-IsPath finite left h nodes (mark k vs) o.node.id (route ++ o.node ∷ [])
                  (subst (λ j. Perm nodes ((route ++ o.node ∷ []) ++ left_of (mark j vs) nodes))
                    (sym there)
                    (subst (Perm nodes) (sym (append_assoc route (o.node ∷ []) _)) (
                      Perm.trans p (
                        Perm.append_left route
                          (mark-Perm o.at vs nodes o.node o.open_there o.node_there)))))
                  (subst (λ j. length (left_of (mark j vs) nodes) ≡ left) (sym there)
                    (omega (arith, e, mark-length o.at vs nodes o.node o.open_there o.node_there)))
                  (s.0 ++ o.node ∷ [], ap (λ r. r ++ o.node ∷ []) s.1))
        ]
      ]

  order-IsPath :
      (finite : HopsAreFinite) (h : Node F) (nodes : List (Node F))
      → IsPath h (h ∷ nodes) (nearest_neighbor_order F model links (h ∷ nodes))
  unfolding nearest_neighbor_order
  order-IsPath finite h nodes =
      loop-IsPath finite (length nodes) h (h ∷ nodes) (true ∷ map (λ n. false) nodes) h.id (h ∷ [])
        (subst (λ r. Perm (h ∷ nodes) (h ∷ r)) (sym (left_of-fresh nodes)) (Perm.refl _))
        (ap length (left_of-fresh nodes)) ([], refl)

  -- When every hop has a finite cost, nearestNeighbor2Opt ends, without an index out of range, on a path
  -- that visits each node once and starts with the first of them, the host.
  pub nearest_neighbor_2opt-IsPath :
      (laws : OrderLaws F) (margin : Margin F laws model links) (finite : HopsAreFinite)
      (h : Node F) (nodes : List (Node F))
      → IsPath h (h ∷ nodes) (nearest_neighbor_2opt F model links (h ∷ nodes))
  unfolding nearest_neighbor_2opt
  nearest_neighbor_2opt-IsPath laws margin finite h nodes =
      let (route, e, p, s) = order-IsPath finite h nodes in
      let r = two_opt_improve-IsRefined F laws model links margin route in
      (two_opt_improve F model links route, rw e refl, Perm.trans p r.permuted, r.same_head h s)
