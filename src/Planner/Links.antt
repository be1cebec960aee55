-- ===== src/Planner/Links.antt =====
-- The two link look-ups of go/planner/plan/partition.go: lookupLink scans and takes the first match,
-- buildLinkIndex keeps the last.
use purser.Prelude.{
  ◌≡◌, refl, true, ◌&&◌, Option, none, some, List, [], ◌∷◌, String, str_eq, eq_iff, arith,
  if◌then◌else◌, ◌∙◌, Bool, ℕ, fun_ext, ap,
}
use purser.Planner.Float.{Float64}
use purser.Planner.Types.{Link, Node, ModelSpec, Quantization}
use purser.Planner.Stage.{
  lookup_link, index_from, build_link_index, stage_time_at, stage_time_at_idx, stage_time_with,
}

module _ (F : Float64) where
  -- No two links join the same two nodes in the same direction.
  abbrev pub IsSimple : List (Link F) → Type 0
  IsSimple [] = Unit {0}
  IsSimple (l ∷ links) = (lookup_link F links l.source l.target ≡ none) × IsSimple links

  abbrev or_else : Option (Link F) → Option (Link F) → Option (Link F)
  or_else none o = o
  or_else (some l) o = some l

  joins : Link F → String → String → Bool
  joins l s t = str_eq l.source s && str_eq l.target t

  lookup_link-joined :
      (l : Link F) (links : List (Link F)) (s t : String)
      → joins l s t ≡ true
      → lookup_link F links s t ≡ lookup_link F links l.source l.target
  unfolding joins
  lookup_link-joined l links s t h = ground (arith, eq_iff l.source s, eq_iff l.target t)

  index_from_lem :
      (links : List (Link F)) (idx : String → String → Option (Link F)) (s t : String)
      → IsSimple links
      → index_from F links idx s t ≡ or_else (lookup_link F links s t) (idx s t)
  unfolding index_from lookup_link joins
  index_from_lem [] idx s t h = refl
  index_from_lem (l ∷ links) idx s t h = ground (
    arith,
    lookup_link-joined l links s t,
    h.0,
    index_from_lem links
        (λ s' t'. if str_eq l.source s' && str_eq l.target t' then some l else idx s' t') s t h.1,
  )

  or_else-none : (o : Option (Link F)) → or_else o none ≡ o
  or_else-none none = refl
  or_else-none (some l) = refl

  build_link_index-eq-lookup_link :
      (links : List (Link F)) (s t : String)
      → IsSimple links
      → build_link_index F links s t ≡ lookup_link F links s t
  unfolding build_link_index
  build_link_index-eq-lookup_link links s t h =
      index_from_lem links (λ _ _. none) s t h ∙ or_else-none _

  -- Where no two links join the same nodes in the same direction, the stage time by the index is the
  -- stage time by the scan.
  pub stage_time_at_idx-eq-stage_time_at :
      (order : List (Node F)) (links : List (Link F)) (model : ModelSpec F) (quant : Quantization F)
      (context m i j : ℕ)
      → IsSimple links
      → stage_time_at_idx F order (build_link_index F links) model quant context m i j
        ≡ stage_time_at F order links model quant context m i j
  unfolding stage_time_at_idx stage_time_at
  stage_time_at_idx-eq-stage_time_at order links model quant context m i j h =
      ap (λ link. stage_time_with F link order model quant context m i j)
        (fun_ext λ s. fun_ext λ t. build_link_index-eq-lookup_link links s t h)
