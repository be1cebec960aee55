-- ===== src/Audit/Mem.antt =====
-- MemStore, go/controlplane/audit/store.go: what its Append stores, and the contract that it keeps.
use purser.Prelude.{
  ◌≡◌, ◌⊎◌, refl, false, true, Bool, List, [], ◌∷◌, ◌++◌, length, arith, Bool-cases, inl, inr, ◌==◌,
  ==_iff,
}
use purser.Audit.Encode.{bytes_eq}
use purser.Audit.Entry.{Entry}
use purser.Audit.Log.{
  ok, err, Error, cancelled, non_contiguous, broken_link, seq_at, tail_hash, StoreLaws, mem_store,
  mem_append, mem_list, mem_last,
}
use purser.Audit.Chain.{bytes_eq_iff}

-- The entry fits behind the stored ones, and the context is live.
abbrev pub IsNext : Bool → Entry → List Entry → Type 0
IsNext is_cancelled e s =
    (is_cancelled ≡ false) × (e.seq ≡ seq_at (length s)) × (e.prev_hash ≡ tail_hash s)

-- MemStore.Append stores the entry behind the others and returns it when the context is live and its
-- number and link fit the stored entries; otherwise it returns an error and stores nothing.
pub mem_append-append :
    (is_cancelled : Bool) (e : Entry) (s : List Entry)
    → (IsNext is_cancelled e s × (mem_append is_cancelled e s ≡ (ok e, s ++ e ∷ [])))
      ⊎ (¬ IsNext is_cancelled e s × ((x : Error) × (mem_append is_cancelled e s ≡ (err x, s))))
unfolding mem_append
mem_append-append true e s = inr (λ n. absurd (ground (arith, n.0)), (cancelled, refl))
mem_append-append false e s = elim (Bool-cases (e.seq == seq_at (length s))) [
  | inl seq_ok ↦ elim (Bool-cases (bytes_eq e.prev_hash (tail_hash s))) [
    | inl link_ok ↦
        inl ((refl, (==_iff _ _).0 seq_ok, (bytes_eq_iff _ _).0 link_ok), rw (seq_ok, link_ok) refl)
    | inr unlinked ↦ inr (
      λ n. absurd (ground (arith, (bytes_eq_iff _ _).1 n.2, unlinked)),
      (broken_link, rw (seq_ok, unlinked) refl),
    )
  ]
  | inr misplaced ↦ inr (
    λ n. absurd (ground (arith, (==_iff _ _).1 n.1, misplaced)),
    (non_contiguous, rw misplaced refl),
  )
]

pub mem_append-fit :
    (e : Entry) (s : List Entry)
    → e.seq ≡ seq_at (length s)
    → e.prev_hash ≡ tail_hash s
    → ((mem_append false e s).0 ≡ ok e) × ((mem_append false e s).1 ≡ s ++ e ∷ [])
unfolding mem_append
mem_append-fit e s hs hl = ground (arith, bytes_eq_iff e.prev_hash (tail_hash s))

-- MemStore keeps the contract of the interface Store.
unfoldable pub mem_store-laws : StoreLaws mem_store
unfolding mem_list mem_last
mem_store-laws = record {
  entries = λ s. s;
  list_eq = λ s. refl;
  last_eq = λ s. refl;
  append_fit = mem_append-fit;
}
