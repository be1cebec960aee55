-- ===== src/Planner/Draft.antt =====
-- Phase E, the place of the speculative draft, go/planner/plan/draft.go. A line of the explanation is
-- the values that its text prints.
use purser.Prelude.{
  ℕ, zero, suc, ◌+◌, ◌≤◌, ◌<◌, ◌≡◌, refl, Bool, true, false, not, Option, none, some, List, [], ◌∷◌,
  ◌++◌, map, String, if◌then◌else◌, length, ltb, get_elem?, ◌==◌, All, All-append, arith,
  Bool-cases, inl, inr, ap, ltb→lt, ◌∙◌, sym, length-append,
}
use mathlib.Core.List.{append_assoc, append-nil}
use purser.Planner.Float.{Float64}
use purser.Planner.Types.{Assignment, DraftInfo, ModelSpec}

pub data Note : Type 0 where
  draft_on_host : String → ℕ → String → Note
  draft_on_tail : String → ℕ → String → ℕ → ℕ → Note

-- the parts of a DeploymentPlan that phase E reads and writes
pub record DeploymentPlan : Type 0 where
  pub assignments : List Assignment
  pub explanation : List Note

-- the loop from index `i`, with the best index so far and its LayerEnd
unfoldable pub tail_from : ℕ → ℕ → ℕ → List Assignment → ℕ
tail_from i tail end [] = tail
tail_from i tail end (a ∷ as') =
    if ltb end a.layer_end
    then tail_from (suc i) i a.layer_end as'
    else tail_from (suc i) tail end as'

abbrev pub with_draft : Bool → Assignment → Assignment
with_draft b a = record a { draft = b }

unfoldable pub clear_drafts : List Assignment → List Assignment
clear_drafts [] = []
clear_drafts (a ∷ as') = with_draft false a ∷ clear_drafts as'

unfoldable pub set_draft : ℕ → List Assignment → List Assignment
set_draft i [] = []
set_draft zero (a ∷ as') = with_draft true a ∷ as'
set_draft (suc i) (a ∷ as') = a ∷ set_draft i as'

abbrev pub note_of : DraftInfo → Bool → Option Assignment → List Note
note_of d single none = []
note_of d single (some a) =
    if single
    then draft_on_host d.kind d.tail_layers a.node_id ∷ []
    else draft_on_tail d.kind d.tail_layers a.node_id a.layer_start a.layer_end ∷ []

-- A nil plan is `none`.
abbrev pub place_on : DraftInfo → List Assignment → List Note → DeploymentPlan
place_on d [] notes = record { assignments = []; explanation = notes }
place_on d (a ∷ as') notes =
    let tail = tail_from 1 0 a.layer_end as' in
    let placed = set_draft tail (clear_drafts (a ∷ as')) in
    record {
      assignments = placed;
      explanation = notes ++ note_of d (length placed == 1) (get_elem? placed tail);
    }

module _ (F : Float64) where
  unfoldable pub place_draft : Option DeploymentPlan → ModelSpec F → Option DeploymentPlan
  place_draft none model = none
  place_draft (some plan) model =
      if not model.draft.available
      then some plan
      else some (place_on model.draft plan.assignments plan.explanation)

-- Entry number `tail` of the list has the largest LayerEnd, and is the first with it.
pub record IsTailOf (whole : List Assignment) (tail : ℕ) : Type 0 where
  pub before : List Assignment
  pub at : Assignment
  pub after : List Assignment
  pub parts : whole ≡ before ++ at ∷ after
  pub index : tail ≡ length before
  pub earlier_less : All (λ a. a.layer_end < at.layer_end) before
  pub later_le : All (λ a. a.layer_end ≤ at.layer_end) after

record Splits (whole : List Assignment) (tail : ℕ) (at : Assignment) (later : List Assignment)
    : Type 0 where
  before : List Assignment
  parts : whole ≡ before ++ at ∷ later
  index : tail ≡ length before
  earlier_less : All (λ a. a.layer_end < at.layer_end) before

weaken_before :
    (e f : ℕ) (as' : List Assignment)
    → e < f
    → All (λ a. a.layer_end < e) as'
    → All (λ a. a.layer_end < f) as'
weaken_before e f [] h k = tt
weaken_before e f (a ∷ as') h k = (omega (arith, k.0), weaken_before e f as' h k.1)

le_before :
    (e f : ℕ) (as' : List Assignment)
    → e < f
    → All (λ a. a.layer_end ≤ e) as'
    → All (λ a. a.layer_end < f) as'
le_before e f [] h k = tt
le_before e f (a ∷ as') h k = (omega (arith, k.0), le_before e f as' h k.1)

tail_from-IsTailOf :
    (whole : List Assignment) (i tail : ℕ) (at : Assignment) (later rest : List Assignment)
    → Splits whole tail at (later ++ rest)
    → i ≡ suc (tail + length later)
    → All (λ a. a.layer_end ≤ at.layer_end) later
    → IsTailOf whole (tail_from i tail at.layer_end rest)
unfolding tail_from
tail_from-IsTailOf whole i tail at later [] s hi l = record {
  before = s.before;
  at = at;
  after = later;
  parts = s.parts ∙ ap (λ x. s.before ++ at ∷ x) (append-nil later);
  index = s.index;
  earlier_less = s.earlier_less;
  later_le = l;
}
tail_from-IsTailOf whole i tail at later (a ∷ rest) s hi l =
    elim (Bool-cases (ltb at.layer_end a.layer_end)) [
      | inl longer ↦
          let lt = ltb→lt at.layer_end a.layer_end longer in
          rw longer (
            tail_from-IsTailOf whole (suc i) i a [] rest
              (record {
                before = s.before ++ at ∷ later;
                parts = s.parts ∙ sym (append_assoc s.before (at ∷ later) (a ∷ rest));
                index = omega (arith, s.index, length-append s.before (at ∷ later));
                earlier_less =
                    All-append _ s.before (at ∷ later)
                      (weaken_before at.layer_end a.layer_end s.before lt s.earlier_less)
                      (lt, le_before at.layer_end a.layer_end later lt l);
              })
              (omega arith) tt)
      | inr shorter ↦ rw shorter (
          tail_from-IsTailOf whole (suc i) tail at (later ++ a ∷ []) rest
            (record {
              before = s.before;
              parts =
                  s.parts ∙ ap (λ x. s.before ++ at ∷ x) (sym (append_assoc later (a ∷ []) rest));
              index = s.index;
              earlier_less = s.earlier_less;
            })
            (omega (arith, length-append later (a ∷ [])))
            (All-append _ later (a ∷ []) l (ground arith, tt)))
    ]

set_draft_at :
    (before : List Assignment) (at : Assignment) (after : List Assignment) (tail : ℕ)
    → tail ≡ length before
    → set_draft tail (clear_drafts (before ++ at ∷ after))
      ≡ clear_drafts before ++ with_draft true at ∷ clear_drafts after
unfolding set_draft clear_drafts
set_draft_at [] at after zero h = refl
set_draft_at [] at after (suc tail) h = absurd (omega arith)
set_draft_at (a ∷ before) at after zero h = absurd (omega arith)
set_draft_at (a ∷ before) at after (suc tail) h =
    ap (λ x. with_draft false a ∷ x) (set_draft_at before at after tail (omega arith))

-- The assignments `out` are those of `whole` with the flag set on one of them and cleared on the
-- others: the first that has the largest LayerEnd.
pub record IsPlaced (whole out : List Assignment) : Type 0 where
  pub tail : ℕ
  pub is_tail : IsTailOf whole tail
  pub placed :
      out
      ≡ map {A = Assignment} (λ a. record a { draft = false }) is_tail.before
        ++ record is_tail.at { draft = true }
          ∷ map {A = Assignment} (λ a. record a { draft = false }) is_tail.after

clear_drafts-eq_map :
    (as' : List Assignment)
    → clear_drafts as' ≡ map {A = Assignment} (λ a. record a { draft = false }) as'
unfolding clear_drafts
clear_drafts-eq_map [] = refl
clear_drafts-eq_map (a ∷ as') = ap (λ x. record a { draft = false } ∷ x) (clear_drafts-eq_map as')

get_set_draft :
    (before : List Assignment) (at : Assignment) (after : List Assignment)
    → get_elem? (clear_drafts before ++ at ∷ after) (length before) ≡ some at
unfolding clear_drafts
get_set_draft [] at after = refl
get_set_draft (a ∷ before) at after = get_set_draft before at after

length-note_of :
    (d : DraftInfo) (single : Bool) (a : Assignment) → length (note_of d single (some a)) ≡ 1
length-note_of d true a = refl
length-note_of d false a = refl

first_tail :
    (a : Assignment) (as' : List Assignment) → IsTailOf (a ∷ as') (tail_from 1 0 a.layer_end as')
first_tail a as' =
    tail_from-IsTailOf (a ∷ as') 1 0 a [] as'
      (record { before = []; parts = refl; index = refl; earlier_less = tt }) refl tt

drafts_placed :
    (whole : List Assignment) (tail : ℕ) (t : IsTailOf whole tail)
    → set_draft tail (clear_drafts whole)
      ≡ clear_drafts t.before ++ with_draft true t.at ∷ clear_drafts t.after
drafts_placed whole tail t =
    ap (λ x. set_draft tail (clear_drafts x)) t.parts
    ∙ set_draft_at t.before t.at t.after tail t.index

place_on-one_line :
    (d : DraftInfo) (a : Assignment) (as' : List Assignment) (notes : List Note)
    → length (place_on d (a ∷ as') notes).explanation ≡ suc (length notes)
place_on-one_line d a as' notes =
    let tail = tail_from 1 0 a.layer_end as' in
    let placed = set_draft tail (clear_drafts (a ∷ as')) in
    let t = first_tail a as' in
    let found : get_elem? placed tail ≡ some (with_draft true t.at) =
      ap (λ x. get_elem? x tail) (drafts_placed (a ∷ as') tail t)
      ∙ (ap (get_elem? (clear_drafts t.before ++ with_draft true t.at ∷ clear_drafts t.after))
            t.index
          ∙ get_set_draft t.before (with_draft true t.at) (clear_drafts t.after)) in
    rw found (
      omega (
        arith,
        length-append notes (note_of d (length placed == 1) (some (with_draft true t.at))),
        length-note_of d (length placed == 1) (with_draft true t.at),
      ))

place_on-IsPlaced :
    (d : DraftInfo) (a : Assignment) (as' : List Assignment) (notes : List Note)
    → IsPlaced (a ∷ as') (place_on d (a ∷ as') notes).assignments
place_on-IsPlaced d a as' notes = record {
  tail = tail_from 1 0 a.layer_end as';
  is_tail = first_tail a as';
  placed =
      let t = first_tail a as' in
      drafts_placed (a ∷ as') (tail_from 1 0 a.layer_end as') t
      ∙ ap (λ x. x ++ with_draft true t.at ∷ clear_drafts t.after) (clear_drafts-eq_map t.before)
      ∙ ap
          (λ x.
            map {A = Assignment} (λ a. record a { draft = false }) t.before
            ++ with_draft true t.at ∷ x)
          (clear_drafts-eq_map t.after);
}

module _ (F : Float64) where
  -- For a model with a draft, placeDraft flags exactly one assignment of a plan that has some: the
  -- first one that holds the last layer of all; it clears every other flag, changes nothing else of
  -- an assignment, and adds one line to the explanation.
  pub place_draft-IsPlaced :
      (model : ModelSpec F) (a : Assignment) (as' : List Assignment) (notes : List Note)
      → model.draft.available ≡ true
      → (out : DeploymentPlan) × (place_draft F
            (some (record { assignments = a ∷ as'; explanation = notes }))
            model
          ≡ some out)
        × IsPlaced (a ∷ as') out.assignments
        × (length out.explanation ≡ suc (length notes))
  unfolding place_draft
  place_draft-IsPlaced model a as' notes h = (
    place_on model.draft (a ∷ as') notes,
    rw h refl,
    place_on-IsPlaced model.draft a as' notes,
    place_on-one_line model.draft a as' notes,
  )
