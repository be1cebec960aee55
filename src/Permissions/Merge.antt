-- ===== src/Permissions/Merge.antt =====
-- Merge: the union of the sets, sorted and without repetition.
use purser.Prelude.{
  ◌≡◌, refl, Bool, true, false, ◌||◌, List, [], ◌∷◌, ◌++◌, arith, Bool-cases, inl, inr, ◌∙◌,
}
use purser.Permissions.Text.{Text, text_eq, text_eq_iff}
use purser.Permissions.Engine.{
  contains, merge_set, merge_sets, text_le, insert_text, sort_strings, merge,
}

abbrev pub in_some : Text → List (List Text) → Bool
in_some p [] = false
in_some p (ps ∷ sets) = contains p ps || in_some p sets

abbrev pub IsSorted : List Text → Type 0
IsSorted [] = Unit {0}
IsSorted (p ∷ []) = Unit {0}
IsSorted (p ∷ q ∷ qs) = (text_le p q ≡ true) × IsSorted (q ∷ qs)

abbrev pub IsNodup : List Text → Type 0
IsNodup [] = Unit {0}
IsNodup (p ∷ ps) = (contains p ps ≡ false) × IsNodup ps

contains-append :
    (p : Text) (ps qs : List Text) → contains p (ps ++ qs) ≡ (contains p ps || contains p qs)
unfolding contains
contains-append p [] qs = refl
contains-append p (q ∷ ps) qs = ground (arith, contains-append p ps qs)

contains-insert :
    (p q : Text) (qs : List Text) → contains p (insert_text q qs) ≡ (text_eq q p || contains p qs)
unfolding contains insert_text
contains-insert p q [] = refl
contains-insert p q (r ∷ qs) = ground (arith, contains-insert p q qs)

contains-sort : (p : Text) (ps : List Text) → contains p (sort_strings ps) ≡ contains p ps
unfolding contains sort_strings
contains-sort p [] = refl
contains-sort p (q ∷ ps) = ground (arith, contains-insert p q (sort_strings ps), contains-sort p ps)

contains-merge_set :
    (p : Text) (ps result : List Text)
    → contains p (merge_set ps result) ≡ (contains p result || contains p ps)
unfolding merge_set contains
contains-merge_set p [] result = ground arith
contains-merge_set p (q ∷ ps) result = elim (Bool-cases (contains q result)) [
  | inl old ↦ rw old (ground (arith, contains-merge_set p ps result, text_eq_iff q p))
  | inr new ↦ rw new (
      ground (arith, contains-merge_set p ps (result ++ q ∷ []), contains-append p result (q ∷ [])))
]

contains-merge_sets :
    (p : Text) (sets : List (List Text)) (result : List Text)
    → contains p (merge_sets sets result) ≡ (contains p result || in_some p sets)
unfolding merge_sets
contains-merge_sets p [] result = ground arith
contains-merge_sets p (ps ∷ sets) result =
    ground (arith, contains-merge_sets p sets (merge_set ps result), contains-merge_set p ps result)

text_le_total : (p q : Text) → text_le p q ≡ false → text_le q p ≡ true
unfolding text_le
text_le_total [] q h = absurd (ground arith)
text_le_total (x ∷ p) [] h = refl
text_le_total (x ∷ p) (y ∷ q) h = ground (arith, text_le_total p q)

insert-IsSorted : (p : Text) (qs : List Text) → IsSorted qs → IsSorted (insert_text p qs)
unfolding insert_text
insert-IsSorted p [] s = tt
insert-IsSorted p (q ∷ []) s = elim (Bool-cases (text_le p q)) [
  | inl before ↦ rw before (before, tt)
  | inr after ↦ rw after (text_le_total p q after, tt)
]
insert-IsSorted p (q ∷ r ∷ qs) s = elim (Bool-cases (text_le p q)) [
  | inl before ↦ rw before (before, s)
  | inr after ↦ rw after (elim (Bool-cases (text_le p r)) [
    | inl here ↦ rw here (text_le_total p q after, (here, s.1))
    | inr later ↦ rw later (s.0, rw later at (insert-IsSorted p (r ∷ qs) s.1))
  ])
]

sort_strings-IsSorted : (ps : List Text) → IsSorted (sort_strings ps)
unfolding sort_strings
sort_strings-IsSorted [] = tt
sort_strings-IsSorted (p ∷ ps) = insert-IsSorted p (sort_strings ps) (sort_strings-IsSorted ps)

contains_cons :
    (p q : Text) (qs : List Text)
    → contains p (q ∷ qs) ≡ false
    → (text_eq p q ≡ false) × (contains p qs ≡ false)
unfolding contains
contains_cons p q qs c = (ground (arith, text_eq_iff p q, text_eq_iff q p), ground arith)

insert-IsNodup :
    (p : Text) (qs : List Text) → contains p qs ≡ false → IsNodup qs → IsNodup (insert_text p qs)
unfolding insert_text
insert-IsNodup p [] c n = (c, n)
insert-IsNodup p (q ∷ qs) c n = elim (Bool-cases (text_le p q)) [
  | inl before ↦ rw before (c, n)
  | inr after ↦ rw after (
    ground (arith, contains-insert q p qs, contains_cons p q qs c, n.0),
    insert-IsNodup p qs (contains_cons p q qs c).1 n.1,
  )
]

sort_strings-IsNodup : (ps : List Text) → IsNodup ps → IsNodup (sort_strings ps)
unfolding sort_strings
sort_strings-IsNodup [] n = tt
sort_strings-IsNodup (p ∷ ps) n =
    insert-IsNodup p (sort_strings ps) (contains-sort p ps ∙ n.0) (sort_strings-IsNodup ps n.1)

append-IsNodup :
    (p : Text) (ps : List Text) → contains p ps ≡ false → IsNodup ps → IsNodup (ps ++ p ∷ [])
unfolding contains
append-IsNodup p [] c n = (refl, tt)
append-IsNodup p (q ∷ ps) c n = (
  ground (arith, contains-append q ps (p ∷ []), text_eq_iff p q, text_eq_iff q p, n.0),
  append-IsNodup p ps (ground arith) n.1,
)

merge_set-IsNodup : (ps result : List Text) → IsNodup result → IsNodup (merge_set ps result)
unfolding merge_set
merge_set-IsNodup [] result n = n
merge_set-IsNodup (p ∷ ps) result n = elim (Bool-cases (contains p result)) [
  | inl old ↦ rw old (merge_set-IsNodup ps result n)
  | inr new ↦ rw new (merge_set-IsNodup ps (result ++ p ∷ []) (append-IsNodup p result new n))
]

merge_sets-IsNodup :
    (sets : List (List Text)) (result : List Text)
    → IsNodup result
    → IsNodup (merge_sets sets result)
unfolding merge_sets
merge_sets-IsNodup [] result n = n
merge_sets-IsNodup (ps ∷ sets) result n =
    merge_sets-IsNodup sets (merge_set ps result) (merge_set-IsNodup ps result n)

contains_nil : (p : Text) (b : Bool) → (contains p [] || b) ≡ b
unfolding contains
contains_nil p b = refl

-- Merge returns the permissions that are in some of the sets and no others, in ascending order and
-- each of them once.
pub merge-union :
    (sets : List (List Text))
    → ((p : Text) → contains p (merge sets) ≡ in_some p sets)
      × IsSorted (merge sets)
      × IsNodup (merge sets)
unfolding merge
merge-union sets = (
  λ p. contains-sort p (merge_sets sets []) ∙ merged p,
  sort_strings-IsSorted (merge_sets sets []),
  sort_strings-IsNodup (merge_sets sets []) (merge_sets-IsNodup sets [] tt),
)
  where
    merged : (p : Text) → contains p (merge_sets sets []) ≡ in_some p sets
    merged p = contains-merge_sets p sets [] ∙ contains_nil p (in_some p sets)
