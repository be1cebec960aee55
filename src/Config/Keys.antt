-- ===== src/Config/Keys.antt =====
-- The key sets of go/controlplane/config: what the loops of Diff collect, as sets of IDs.
use purser.Prelude.{
  true, false, not, ◌&&◌, ◌||◌, List, [], ◌∷◌, ◌++◌, String, str_eq, eq_iff, ◌≡◌, refl, ap, sym,
  arith,
}
use purser.Config.Validate.{has_key}
use purser.Config.Diff.{select, ids_of, without}

pub has_key-append :
    (i : String) (xs ys : List String) → has_key i (xs ++ ys) ≡ (has_key i xs || has_key i ys)
unfolding has_key
has_key-append i [] ys = refl
has_key-append i (x ∷ xs) ys = ground (arith, has_key-append i xs ys)

pub has_key-eq :
    (i j : String) (keys : List String) → str_eq i j ≡ true → has_key j keys ≡ has_key i keys
has_key-eq i j keys h = ap (λ k. has_key k keys) (sym ((eq_iff i j).0 h))

pub has_key-without :
    (i : String) (ids desired : List String)
    → has_key i (without ids desired) ≡ (has_key i ids && not (has_key i desired))
unfolding has_key without
has_key-without i [] desired = refl
has_key-without i (j ∷ ids) desired =
    ground (arith, has_key-without i ids desired, has_key-eq j i desired)

module _ {A : Type 0} (id : A → String) where
  pub has_key-select_absent :
      (i : String) (ids : List String) (specs : List A)
      → has_key i (ids_of id (select id false ids specs))
        ≡ (not (has_key i ids) && has_key i (ids_of id specs))
  unfolding has_key select ids_of
  has_key-select_absent i ids [] = ground arith
  has_key-select_absent i ids (a ∷ specs) =
      ground (arith, has_key-select_absent i ids specs, has_key-eq (id a) i ids)

  pub has_key-select_present :
      (i : String) (ids : List String) (specs : List A)
      → has_key i (ids_of id (select id true ids specs))
        ≡ (has_key i ids && has_key i (ids_of id specs))
  unfolding has_key select ids_of
  has_key-select_present i ids [] = ground arith
  has_key-select_present i ids (a ∷ specs) =
      ground (arith, has_key-select_present i ids specs, has_key-eq (id a) i ids)
