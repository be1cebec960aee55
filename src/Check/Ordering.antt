-- ===== src/Check/Ordering.antt =====
-- Paths over four nodes of which one hop is measured.
use purser.Prelude.{inl, inr, refl, ◌&&◌, List, [], ◌∷◌, str_eq, Bool-cases, arith}
use purser.Planner.Types.{Node, Link}
use purser.Planner.Stage.{lookup_link, activation_bytes}
use purser.Planner.Ordering.{
  edge_cost, bytes_per_ms, two_opt_improve, two_opt_max_passes, nearest_neighbor_2opt,
}
use purser.Planner.Ordering.Improve.{Margin}
use purser.Planner.Ordering.Nearest.{HopsAreFinite, IsPath, nearest_neighbor_2opt-IsPath}
use purser.Planner.Ordering.Settled.{IsRefined, two_opt_improve-IsRefined}
use purser.Check.Fixed.{milli, infinite, fixed, fixed_order}
use purser.Check.Fleet.{node, link, model}

abbrev links : List (Link fixed)
links = link "a" "d" ∷ []

abbrev nodes : List (Node fixed)
nodes = node "b" 30 100 ∷ node "c" 30 100 ∷ node "d" 30 100 ∷ []

abbrev route : List (Node fixed)
route = node "a" 40 200 ∷ nodes

margin : Margin fixed fixed_order model links
margin (milli a) (milli b) h = ground arith
margin (milli a) infinite h = refl
margin infinite y h = absurd (ground (arith, h))

finite : HopsAreFinite fixed model links
unfolding edge_cost lookup_link bytes_per_ms activation_bytes
finite a b = elim (Bool-cases (str_eq "a" a && str_eq "d" b)) [
  | inl joined ↦ rw joined refl
  | inr apart ↦ rw apart refl
]

two_opt_improve-IsRefined_example :
    IsRefined fixed fixed_order model links margin two_opt_max_passes route
      (two_opt_improve fixed model links route)
two_opt_improve-IsRefined_example =
    two_opt_improve-IsRefined fixed fixed_order model links margin route

nearest_neighbor_2opt-IsPath_example :
    IsPath fixed model links (node "a" 40 200) route (nearest_neighbor_2opt fixed model links route)
nearest_neighbor_2opt-IsPath_example =
    nearest_neighbor_2opt-IsPath fixed model links fixed_order margin finite (node "a" 40 200) nodes
