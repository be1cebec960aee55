-- ===== src/Permissions/Text.antt =====
-- The functions of package strings that go/controlplane/permissions calls, over lists of bytes.
use Prim.Native.Char.{code}
use purser.Prelude.{
  ℕ, zero, suc, ◌-◌, ◌≡◌, ◌↔◌, refl, Bool, true, false, ◌&&◌, List, [], ◌∷◌, ◌++◌, length,
  length-append, leb, ◌==◌, if◌then◌else◌, arith, String, ap, ◌∙◌, sym,
}

abbrev pub Text : Type 0
Text = List ℕ

-- The bytes of an ASCII literal.
abbrev pub text : String → Text
text String.[] = []
text (String.◌∷◌ c s) = code c ∷ text s

unfoldable pub text_eq : Text → Text → Bool
text_eq [] [] = true
text_eq [] (y ∷ ys) = false
text_eq (x ∷ xs) [] = false
text_eq (x ∷ xs) (y ∷ ys) = x == y && text_eq xs ys

abbrev pub take : ℕ → Text → Text
take zero s = []
take (suc n) [] = []
take (suc n) (x ∷ s) = x ∷ take n s

abbrev pub drop : ℕ → Text → Text
drop zero s = s
drop (suc n) [] = []
drop (suc n) (x ∷ s) = drop n s

-- strings.HasPrefix(s, prefix)
unfoldable pub has_prefix : Text → Text → Bool
has_prefix s [] = true
has_prefix [] (y ∷ prefix) = false
has_prefix (x ∷ s) (y ∷ prefix) = x == y && has_prefix s prefix

-- strings.HasSuffix(s, suffix)
unfoldable pub has_suffix : Text → Text → Bool
unfolding text_eq
has_suffix s suffix =
    leb (length suffix) (length s) && text_eq (drop (length s - length suffix) s) suffix

-- strings.TrimSuffix(s, suffix)
unfoldable pub trim_suffix : Text → Text → Text
unfolding has_suffix
trim_suffix s suffix = if has_suffix s suffix then take (length s - length suffix) s else s

pub text_eq_iff : (xs ys : Text) → (text_eq xs ys ≡ true) ↔ (xs ≡ ys)
unfolding text_eq
text_eq_iff [] [] = ground arith
text_eq_iff [] (y ∷ ys) = ground arith
text_eq_iff (x ∷ xs) [] = ground arith
text_eq_iff (x ∷ xs) (y ∷ ys) = ground (arith, text_eq_iff xs ys)

pub has_prefix→append :
    (s prefix : Text) → has_prefix s prefix ≡ true → (rest : Text) × (s ≡ prefix ++ rest)
unfolding has_prefix
has_prefix→append s [] h = (s, refl)
has_prefix→append [] (y ∷ prefix) h = absurd (ground arith)
has_prefix→append (x ∷ s) (y ∷ prefix) h =
    let rest = has_prefix→append s prefix (ground arith) in (rest.0, ground (arith, rest.1))

pub has_prefix-append : (prefix rest : Text) → has_prefix (prefix ++ rest) prefix ≡ true
unfolding has_prefix
has_prefix-append [] rest = refl
has_prefix-append (x ∷ prefix) rest = ground (arith, has_prefix-append prefix rest)

pub take-append-drop : (n : ℕ) (s : Text) → take n s ++ drop n s ≡ s
take-append-drop zero s = refl
take-append-drop (suc n) [] = refl
take-append-drop (suc n) (x ∷ s) = ap (λ t. x ∷ t) (take-append-drop n s)

pub drop-append : (s t : Text) → drop (length s) (s ++ t) ≡ t
drop-append [] t = refl
drop-append (x ∷ s) t = drop-append s t

pub take-append : (s t : Text) → take (length s) (s ++ t) ≡ s
take-append [] t = refl
take-append (x ∷ s) t = ap (λ r. x ∷ r) (take-append s t)

-- A text with a suffix is what stands before it and the suffix.
pub has_suffix→append :
    (s suffix : Text) → has_suffix s suffix ≡ true → s ≡ take (length s - length suffix) s ++ suffix
unfolding has_suffix
has_suffix→append s suffix h =
    sym (take-append-drop (length s - length suffix) s)
    ∙ ap (λ t. take (length s - length suffix) s ++ t)
        ((text_eq_iff (drop (length s - length suffix) s) suffix).0 (ground arith))

length_sub : (s t : Text) → length (s ++ t) - length t ≡ length s
length_sub s t = omega (arith, length-append s t)

length_le : (s t : Text) → leb (length t) (length (s ++ t)) ≡ true
length_le s t = ground (arith, length-append s t)

pub has_suffix-append : (s t : Text) → has_suffix (s ++ t) t ≡ true
unfolding has_suffix
has_suffix-append s t =
    rw (length_le s t, length_sub s t, drop-append s t) ((text_eq_iff t t).1 refl)

pub trim_suffix-append : (s t : Text) → trim_suffix (s ++ t) t ≡ s
unfolding trim_suffix
trim_suffix-append s t = rw (has_suffix-append s t) (rw (length_sub s t) (take-append s t))
