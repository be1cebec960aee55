-- ===== src/Audit/Chain.antt =====
-- What Verify decides: whether the entries form a chain.
use purser.Prelude.{
  ℕ, suc, ◌+◌, ◌≡◌, ◌≢◌, ◌↔◌, refl, true, Option, none, some, List, [], ◌∷◌, ◌++◌, length, arith,
  ◌==◌, Bool-cases, inl, inr, ap, Option-cases, none-ne-some, subst, ◌∙◌,
}
use mathlib.Core.Option.{some-injective}
use native.Mathlib.Nat.{add-zero}
use purser.Audit.Encode.{Bytes, bytes_eq}
use purser.Audit.Entry.{Entry, compute_hash}
use purser.Audit.Log.{
  Kind, kind_seq, kind_link, kind_hash, VerifyError, seq_at, genesis_prev_hash, check_hash,
  check_entry, broken, or_go, verify_from, verify,
}

pub bytes_eq_iff : (xs ys : Bytes) → (bytes_eq xs ys ≡ true) ↔ (xs ≡ ys)
unfolding bytes_eq
bytes_eq_iff [] [] = ground arith
bytes_eq_iff [] (y ∷ ys) = ground arith
bytes_eq_iff (x ∷ xs) [] = ground arith
bytes_eq_iff (x ∷ xs) (y ∷ ys) = ground (arith, bytes_eq_iff xs ys)

module _ (sha256 : Bytes → Bytes) where
  -- Entry number `i`, after an entry with hash `prev`, is what a log writes.
  pub record IsLinked (prev : Bytes) (i : ℕ) (e : Entry) : Type 0 where
    pub seq_ok : e.seq ≡ seq_at i
    pub link_ok : e.prev_hash ≡ prev
    pub hash_ok : compute_hash sha256 e ≡ some e.hash

  abbrev pub IsChainFrom : Bytes → ℕ → List Entry → Type 0
  IsChainFrom prev i [] = Unit {0}
  IsChainFrom prev i (e ∷ entries) = IsLinked prev i e × IsChainFrom e.hash (suc i) entries

  abbrev pub IsChain : List Entry → Type 0
  IsChain = IsChainFrom genesis_prev_hash 0

  check_hash-none :
      (i : ℕ) (e : Entry) (o : Option Bytes) → check_hash i e o ≡ none → o ≡ some e.hash
  check_hash-none i e none h = ground arith
  check_hash-none i e (some want) h = ground (arith, bytes_eq_iff e.hash want)

  check_hash-some :
      (i : ℕ) (e : Entry) (o : Option Bytes) → o ≡ some e.hash → check_hash i e o ≡ none
  check_hash-some i e none h = ground arith
  check_hash-some i e (some want) h = ground (arith, bytes_eq_iff e.hash want)

  check_entry-none :
      (prev : Bytes) (i : ℕ) (e : Entry) → check_entry sha256 prev i e ≡ none → IsLinked prev i e
  unfolding check_entry
  check_entry-none prev i e h =
      let good = check_hash-none i e (compute_hash sha256 e) in
      record {
        seq_ok = ground arith;
        link_ok = ground (arith, bytes_eq_iff e.prev_hash prev);
        hash_ok = good (ground arith);
      }

  check_entry_of_IsLinked :
      (prev : Bytes) (i : ℕ) (e : Entry) → IsLinked prev i e → check_entry sha256 prev i e ≡ none
  unfolding check_entry
  check_entry_of_IsLinked prev i e l =
      ground (
        arith,
        bytes_eq_iff e.prev_hash prev,
        check_hash-some i e (compute_hash sha256 e) l.hash_ok,
      )

  verify_from→IsChainFrom :
      (prev : Bytes) (i : ℕ) (entries : List Entry)
      → verify_from sha256 prev i entries ≡ none
      → IsChainFrom prev i entries
  unfolding verify_from
  verify_from→IsChainFrom prev i [] h = tt
  verify_from→IsChainFrom prev i (e ∷ entries) h =
      elim (Option-cases (check_entry sha256 prev i e)) [
        | inl fine ↦ (
          check_entry-none prev i e fine,
          verify_from→IsChainFrom e.hash (suc i) entries (rw (fine, or_go) at h),
        )
        | inr (bad, found) ↦ absurd (none-ne-some bad (rw (found, or_go) at h) refl)
      ]

  pub IsChainFrom→verify_from :
      (prev : Bytes) (i : ℕ) (entries : List Entry)
      → IsChainFrom prev i entries
      → verify_from sha256 prev i entries ≡ none
  unfolding verify_from
  IsChainFrom→verify_from prev i [] h = refl
  IsChainFrom→verify_from prev i (e ∷ entries) h =
      rw (check_entry_of_IsLinked prev i e h.0, IsChainFrom→verify_from e.hash (suc i) entries h.1)

  -- Verify returns nil exactly when the entries form a chain from genesis: contiguous numbers, each
  -- PrevHash the hash before it, each Hash the one that is recomputed.
  pub verify_iff : (entries : List Entry) → (verify sha256 entries ≡ none) ↔ IsChain entries
  unfolding verify
  verify_iff entries = (
    verify_from→IsChainFrom genesis_prev_hash 0 entries,
    IsChainFrom→verify_from genesis_prev_hash 0 entries,
  )

  -- What each kind of failure says of the entry, in the order of the tests.
  abbrev pub Fails : Bytes → ℕ → Entry → Kind → Type 0
  Fails prev i e kind_seq = e.seq ≢ seq_at i
  Fails prev i e kind_link = (e.seq ≡ seq_at i) × (e.prev_hash ≢ prev)
  Fails prev i e kind_hash =
      (e.seq ≡ seq_at i) × (e.prev_hash ≡ prev) × (compute_hash sha256 e ≢ some e.hash)

  -- the hash that entry number `i` must link to
  abbrev pub hash_before : Bytes → List Entry → Bytes
  hash_before prev [] = prev
  hash_before prev (e ∷ entries) = hash_before e.hash entries

  -- The failure `bad` stands behind a prefix that is a chain.
  pub record IsFirstFailure (prev : Bytes) (i : ℕ) (entries : List Entry) (bad : VerifyError)
      : Type 0 where
    pub before : List Entry
    pub entry : Entry
    pub after : List Entry
    pub parts : entries ≡ before ++ entry ∷ after
    pub chain : IsChainFrom prev i before
    pub index_ok : bad.index ≡ i + length before
    pub seq_ok : bad.seq ≡ entry.seq
    pub fails : Fails (hash_before prev before) (i + length before) entry bad.kind

  abbrev Reports : Bytes → ℕ → Entry → VerifyError → Type 0
  Reports prev i e bad = (bad.index ≡ i) × (bad.seq ≡ e.seq) × Fails prev i e bad.kind

  Reports-broken :
      (prev : Bytes) (i : ℕ) (e : Entry) (k : Kind) (bad : VerifyError)
      → Fails prev i e k
      → broken i e k ≡ some bad
      → Reports prev i e bad
  Reports-broken prev i e k bad f h =
      subst (Reports prev i e) (some-injective _ _ h) (refl, refl, f)

  check_hash-Reports :
      (prev : Bytes) (i : ℕ) (e : Entry) (bad : VerifyError) (o : Option Bytes)
      → compute_hash sha256 e ≡ o
      → e.seq ≡ seq_at i
      → e.prev_hash ≡ prev
      → check_hash i e o ≡ some bad
      → Reports prev i e bad
  check_hash-Reports prev i e bad none same s l h =
      Reports-broken prev i e kind_hash bad (s, l, λ eq. none-ne-some e.hash same eq) h
  check_hash-Reports prev i e bad (some want) same s l h =
      elim (Bool-cases (bytes_eq e.hash want)) [
        | inl fine ↦ absurd (none-ne-some bad refl (rw fine at h))
        | inr wrong ↦
            Reports-broken prev i e kind_hash bad
              (s, l, λ eq. ground (arith, bytes_eq_iff e.hash want)) (rw wrong at h)
      ]

  check_entry-Reports :
      (prev : Bytes) (i : ℕ) (e : Entry) (bad : VerifyError)
      → check_entry sha256 prev i e ≡ some bad
      → Reports prev i e bad
  unfolding check_entry
  check_entry-Reports prev i e bad h = elim (Bool-cases (e.seq == seq_at i)) [
    | inr other_seq ↦ Reports-broken prev i e kind_seq bad (ground arith) (rw other_seq at h)
    | inl same_seq ↦ elim (Bool-cases (bytes_eq e.prev_hash prev)) [
      | inr unlinked ↦
          Reports-broken prev i e kind_link bad
            (ground arith, ground (arith, bytes_eq_iff e.prev_hash prev))
            (rw (same_seq, unlinked) at h)
      | inl linked ↦
          check_hash-Reports prev i e bad (compute_hash sha256 e) refl (ground arith)
            (ground (arith, bytes_eq_iff e.prev_hash prev)) (rw (same_seq, linked) at h)
    ]
  ]

  verify_from-IsFirstFailure :
      (prev : Bytes) (i : ℕ) (entries : List Entry) (bad : VerifyError)
      → verify_from sha256 prev i entries ≡ some bad
      → IsFirstFailure prev i entries bad
  unfolding verify_from
  verify_from-IsFirstFailure prev i [] bad h = absurd (none-ne-some bad refl h)
  verify_from-IsFirstFailure prev i (e ∷ entries) bad h =
      elim (Option-cases (check_entry sha256 prev i e)) [
        | inr (found, at_e) ↦
            let r = check_entry-Reports prev i e bad (at_e ∙ (rw (at_e, or_go) at h)) in
            record {
              before = [];
              entry = e;
              after = entries;
              parts = refl;
              chain = tt;
              index_ok = rw add-zero r.0;
              seq_ok = r.1;
              fails = rw add-zero r.2;
            }
        | inl fine ↦
            let rest =
              verify_from-IsFirstFailure e.hash (suc i) entries bad (rw (fine, or_go) at h) in
            let shift : suc i + length rest.before ≡ i + suc (length rest.before) = omega arith in
            record {
              before = e ∷ rest.before;
              entry = rest.entry;
              after = rest.after;
              parts = ap (λ es. e ∷ es) rest.parts;
              chain = (check_entry-none prev i e fine, rest.chain);
              index_ok = rest.index_ok ∙ shift;
              seq_ok = rest.seq_ok;
              fails =
                  subst (λ n. Fails (hash_before e.hash rest.before) n rest.entry bad.kind) shift
                    rest.fails;
            }
      ]

  -- An error of Verify names the first entry that breaks the chain: all the entries before it form a
  -- chain, Index and Seq are those of that entry, and Kind is the first of the three tests that fails
  -- on it.
  pub verify-IsFirstFailure :
      (entries : List Entry) (bad : VerifyError)
      → verify sha256 entries ≡ some bad
      → IsFirstFailure genesis_prev_hash 0 entries bad
  unfolding verify
  verify-IsFirstFailure = verify_from-IsFirstFailure genesis_prev_hash 0
