-- ===== src/License/Text.antt =====
-- The functions of package strings that enterprise/license calls, over lists of runes.
use purser.Prelude.{
  ℕ, ◌≡◌, refl, Bool, true, false, ◌&&◌, ◌||◌, List, [], ◌∷◌, ◌++◌, leb, ◌==◌, if◌then◌else◌, arith,
  ap, ◌∙◌, All,
}
use purser.Permissions.Text.{Text}

-- unicode.IsSpace
unfoldable pub is_space : ℕ → Bool
is_space c =
    (leb 9 c && leb c 13)
    || c == 32
    || c == 133
    || c == 160
    || c == 5760
    || (leb 8192 c && leb c 8202)
    || c == 8232
    || c == 8233
    || c == 8239
    || c == 8287
    || c == 12288

unfoldable pub trim_start : Text → Text
trim_start [] = []
trim_start (c ∷ s) = let rest = trim_start s in if is_space c then rest else c ∷ s

abbrev pub is_empty : Text → Bool
is_empty [] = true
is_empty (c ∷ s) = false

unfoldable pub trim_end : Text → Text
trim_end [] = []
trim_end (c ∷ s) = let rest = trim_end s in if is_space c && is_empty rest then [] else c ∷ rest

-- strings.TrimSpace
unfoldable pub trim_space : Text → Text
unfolding trim_start trim_end
trim_space s = trim_end (trim_start s)

abbrev cons_first : ℕ → List Text → List Text
cons_first c [] = (c ∷ []) ∷ []
cons_first c (p ∷ parts) = (c ∷ p) ∷ parts

-- strings.Split(s, sep) for a separator of one rune
unfoldable pub split : ℕ → Text → List Text
split sep [] = [] ∷ []
split sep (c ∷ s) = let rest = split sep s in if c == sep then [] ∷ rest else cons_first c rest

abbrev pub HasNoSpace : Text → Type 0
HasNoSpace = All (λ c. is_space c ≡ false)

abbrev pub HasNo : ℕ → Text → Type 0
HasNo sep = All (λ c. (c == sep) ≡ false)

trim_start-HasNoSpace : (s : Text) → HasNoSpace s → trim_start s ≡ s
unfolding trim_start
trim_start-HasNoSpace [] h = refl
trim_start-HasNoSpace (c ∷ s) h = rw (h.0) refl

trim_end-HasNoSpace : (s : Text) → HasNoSpace s → trim_end s ≡ s
unfolding trim_end
trim_end-HasNoSpace [] h = refl
trim_end-HasNoSpace (c ∷ s) h = rw (h.0) (ap (λ t. c ∷ t) (trim_end-HasNoSpace s h.1))

pub trim_space-HasNoSpace : (s : Text) → HasNoSpace s → trim_space s ≡ s
unfolding trim_space
trim_space-HasNoSpace s h = ap trim_end (trim_start-HasNoSpace s h) ∙ trim_end-HasNoSpace s h

pub split-HasNo : (sep : ℕ) (s : Text) → HasNo sep s → split sep s ≡ s ∷ []
unfolding split
split-HasNo sep [] h = refl
split-HasNo sep (c ∷ s) h = rw (h.0, split-HasNo sep s h.1) refl

pub split-append : (sep : ℕ) (s t : Text) → HasNo sep s → split sep (s ++ sep ∷ t) ≡ s ∷ split sep t
unfolding split
split-append sep [] t h = rw (same) refl
  where
    same : (sep == sep) ≡ true
    same = ground arith
split-append sep (c ∷ s) t h = rw (h.0, split-append sep s t h.1) refl
