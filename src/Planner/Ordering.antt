-- ===== src/Planner/Ordering.antt =====
-- Phase D, go/planner/plan/ordering.go: the cost of a hop, the host, the nearest-neighbour path and its
-- 2-opt refinement. Held-Karp is left out. The sorting of orderNodes too.
use purser.Prelude.{
  ℕ, zero, suc, ◌-◌, Bool, true, false, Option, none, some, List, [], ◌∷◌, ◌++◌, map, String,
  str_eq, if◌then◌else◌, length, ltb, get_elem?, not, ◌&&◌,
}
use purser.Planner.Float.{Float64}
use purser.Planner.Types.{Node, Link, ModelSpec, Constraints}
use purser.Planner.Memory.{useful_capacity}
use purser.Planner.Stage.{activation_bytes, lookup_link}
pub mod Swaps
pub mod Nearest
pub mod Improve
pub mod Settled

abbrev pub two_opt_max_passes : ℕ
two_opt_max_passes = 64

-- the exchange of `x` with entry `r` of the list: the entry, and the list with `x` in its place
unfoldable pub exchange {ℓ} : {A : Type ℓ} → ℕ → A → List A → A × List A
exchange r x [] = (x, [])
exchange zero x (y ∷ ys) = (y, x ∷ ys)
exchange (suc r) x (y ∷ ys) = let rest = exchange r x ys in (rest.0, y ∷ rest.1)

-- cand[l], cand[r] = cand[r], cand[l], for l < r
unfoldable pub swap {ℓ} : {A : Type ℓ} → ℕ → ℕ → List A → List A
unfolding exchange
swap l r [] = []
swap l zero (x ∷ xs) = x ∷ xs
swap zero (suc r) (x ∷ xs) = let rest = exchange r x xs in rest.0 ∷ rest.1
swap (suc l) (suc r) (x ∷ xs) = x ∷ swap l r xs

-- the loop that reverses the entries from `l` to `r`
unfoldable pub reverse_segment {ℓ} : {A : Type ℓ} → ℕ → ℕ → List A → List A
unfolding swap
reverse_segment l zero xs = xs
reverse_segment l (suc r) xs =
    let rest = reverse_segment (suc l) r (swap l (suc r) xs) in if ltb l (suc r) then rest else xs

-- visited[k] = true
unfoldable pub mark : ℕ → List Bool → List Bool
mark k [] = []
mark zero (v ∷ vs) = true ∷ vs
mark (suc k) (v ∷ vs) = v ∷ mark k vs

module _ (F : Float64) where
  open F use {T, of_nat, decimal, add, sub, mul, div, lt, le, inf}

  abbrev pub missing_link_penalty_ms : T
  missing_link_penalty_ms = of_nat 1000000

  abbrev pub two_opt_improve_eps : T
  two_opt_improve_eps = decimal 1 9

  unfoldable pub bytes_per_ms : T → T
  bytes_per_ms bandwidth =
      if le bandwidth (of_nat 0)
      then of_nat 0
      else div (mul bandwidth (of_nat 1000000000)) (of_nat 1000)

  abbrev pub cost_on : ModelSpec F → Option (Link F) → T
  cost_on model none = missing_link_penalty_ms
  cost_on model (some link) =
      let bpm = bytes_per_ms link.bandwidth_gbs in
      if lt (of_nat 0) bpm
      then add link.rtt_ms (div (activation_bytes F model) bpm)
      else link.rtt_ms

  unfoldable pub edge_cost : String → String → ModelSpec F → List (Link F) → T
  unfolding bytes_per_ms
  edge_cost a b model links = cost_on model (lookup_link F links a b)

  -- the loop for the forced host, from index `i`
  unfoldable pub index_of : String → ℕ → List (Node F) → Option ℕ
  index_of id i [] = none
  index_of id i (n ∷ nodes) =
      let rest = index_of id (suc i) nodes in if str_eq n.id id then some i else rest

  -- the loop for the best capacity, from index `i`
  unfoldable pub most_capable : ℕ → ℕ → T → List (Node F) → ℕ
  most_capable i best best_cap [] = best
  most_capable i best best_cap (n ∷ nodes) =
      let cap = useful_capacity F n in
      if lt best_cap cap
      then most_capable (suc i) i cap nodes
      else most_capable (suc i) best best_cap nodes

  abbrev forced_or : Option ℕ → ℕ → ℕ
  forced_or none best = best
  forced_or (some i) best = i

  abbrev forced_index : Option String → List (Node F) → Option ℕ
  forced_index none nodes = none
  forced_index (some id) nodes = index_of id 0 nodes

  -- `none` for the index that is out of range on no nodes
  unfoldable pub choose_host_index : List (Node F) → Constraints F → Option ℕ
  unfolding index_of most_capable
  choose_host_index [] c = none
  choose_host_index (n ∷ nodes) c = some (
      forced_or (forced_index c.force_host (n ∷ nodes))
        (most_capable 1 0 (useful_capacity F n) nodes))

  module _ (model : ModelSpec F) (links : List (Link F)) where
    -- the sum of orderCost from `total` on
    unfoldable pub cost_from : T → List (Node F) → T
    unfolding edge_cost
    cost_from total [] = total
    cost_from total (a ∷ []) = total
    cost_from total (a ∷ b ∷ order) =
        cost_from (add total (edge_cost a.id b.id model links)) (b ∷ order)

    unfoldable pub order_cost : List (Node F) → T
    unfolding cost_from
    order_cost order = cost_from (of_nat 0) order

    -- the loop over k in nearestNeighborOrder, with `next` and `bestC`; -1 is `none`
    unfoldable pub nearest_from : String → ℕ → Option ℕ → T → List Bool → List (Node F) → Option ℕ
    unfolding edge_cost
    nearest_from cur k next best [] nodes = next
    nearest_from cur k next best (v ∷ vs) [] = next
    nearest_from cur k next best (true ∷ vs) (n ∷ nodes) =
        nearest_from cur (suc k) next best vs nodes
    nearest_from cur k next best (false ∷ vs) (n ∷ nodes) =
        let c = edge_cost cur n.id model links in
        let better = nearest_from cur (suc k) (some k) c vs nodes in
        let same = nearest_from cur (suc k) next best vs nodes in if lt c best then better else same

    -- the loop until the route has all nodes; `none` for an index that is out of range
    unfoldable pub nearest_loop :
        ℕ → List (Node F) → List Bool → String → List (Node F) → Option (List (Node F))
    unfolding nearest_from mark
    nearest_loop zero nodes visited cur route = some route
    nearest_loop (suc left) nodes visited cur route =
        elim (nearest_from cur 0 none inf visited nodes) [
          | none ↦ none
          | some k ↦ elim (get_elem? nodes k) [
            | none ↦ none
            | some n ↦ nearest_loop left nodes (mark k visited) n.id (route ++ n ∷ [])
          ]
        ]

    unfoldable pub nearest_neighbor_order : List (Node F) → Option (List (Node F))
    unfolding nearest_loop
    nearest_neighbor_order [] = none
    nearest_neighbor_order (h ∷ nodes) =
        nearest_loop (length nodes) (h ∷ nodes) (true ∷ map (λ n. false) nodes) h.id (h ∷ [])

    -- `best`, `bestCost` and `improved`
    pub record Best : Type 0 where
      pub route : List (Node F)
      pub cost : T
      pub improved : Bool

    unfoldable pub try_reversal : ℕ → ℕ → Best → Best
    unfolding order_cost reverse_segment
    try_reversal i k st =
        let cand = reverse_segment i k st.route in
        let c = order_cost cand in
        if lt c (sub st.cost two_opt_improve_eps)
        then record { route = cand; cost = c; improved = true }
        else st

    -- the loop over k, with the rounds left
    unfoldable pub try_ends : ℕ → ℕ → ℕ → Best → Best
    unfolding try_reversal
    try_ends zero i k st = st
    try_ends (suc left) i k st = try_ends left i (suc k) (try_reversal i k st)

    -- the loop over i, with the rounds left
    unfoldable pub try_starts : ℕ → ℕ → ℕ → Best → Best
    unfolding try_ends
    try_starts zero i n st = st
    try_starts (suc left) i n st = try_starts left (suc i) n (try_ends (n - suc i) i (suc i) st)

    abbrev pub sweep_once : ℕ → Best → Best
    sweep_once n st = try_starts (n - 2) 1 n (record st { improved = false })

    -- the loop over the passes
    unfoldable pub improve_loop : ℕ → ℕ → Best → Best
    unfolding try_starts
    improve_loop zero n st = st
    improve_loop (suc left) n st =
        let next = sweep_once n st in
        let rest = improve_loop left n next in if next.improved then rest else next

    unfoldable pub two_opt_improve : List (Node F) → List (Node F)
    unfolding improve_loop order_cost
    two_opt_improve route =
        if ltb (length route) 4
        then route
        else (improve_loop two_opt_max_passes (length route)
            (record { route = route; cost = order_cost route; improved = false })).route

    abbrev improve_found : Option (List (Node F)) → Option (List (Node F))
    improve_found none = none
    improve_found (some route) = some (two_opt_improve route)

    unfoldable pub nearest_neighbor_2opt : List (Node F) → Option (List (Node F))
    unfolding nearest_neighbor_order two_opt_improve
    nearest_neighbor_2opt nodes = improve_found (nearest_neighbor_order nodes)

  unfoldable pub same_order : List (Node F) → List (Node F) → Bool
  same_order [] [] = true
  same_order [] (b ∷ bs) = false
  same_order (a ∷ as') [] = false
  same_order (a ∷ as') (b ∷ bs) = str_eq a.id b.id && same_order as' bs

  -- failover.go
  unfoldable pub nodes_excluding : List (Node F) → String → List (Node F)
  nodes_excluding [] id = []
  nodes_excluding (n ∷ nodes) id =
      let rest = nodes_excluding nodes id in if not (str_eq n.id id) then n ∷ rest else rest
