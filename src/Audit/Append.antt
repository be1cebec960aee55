-- ===== src/Audit/Append.antt =====
-- Log.Append keeps the chain, over any store that keeps its entries.
use purser.Prelude.{
  ℕ, zero, suc, ◌+◌, ◌≡◌, refl, false, Option, none, some, List, [], ◌∷◌, ◌++◌, length, arith,
  Option-cases, inl, inr, none-ne-some, ◌∙◌, subst, get_last?, ap, sym,
}
use mathlib.Core.Option.{some-injective}
use native.Mathlib.Nat.{add-zero, zero-add}
use purser.Audit.Encode.{Bytes, Int64, hex_encode, hex_decode, from_hex_digit}
use purser.Audit.Hex.{AreBytes, hex_decode-hex_encode}
use purser.Audit.Entry.{Details, Entry, compute_hash, canonical_bytes}
use purser.Audit.Log.{
  Result, ok, seq_at, genesis_prev_hash, tail_hash, Store, StoreLaws, draft_entry, append_after,
  log_append,
}
use purser.Audit.Chain.{IsLinked, IsChainFrom, IsChain, hash_before}

abbrev pub null_bytes : ℕ → Bytes
null_bytes = elim [ zero ↦ [] | suc (n → ih) ↦ 0 ∷ ih ]

pub genesis-hex : hex_decode genesis_prev_hash ≡ some (null_bytes 32)
unfolding hex_decode from_hex_digit
genesis-hex = refl

module _ (sha256 : Bytes → Bytes) where
  pub IsChainFrom-snoc :
      (prev : Bytes) (i : ℕ) (entries : List Entry) (e : Entry)
      → IsChainFrom sha256 prev i entries
      → IsLinked sha256 (hash_before sha256 prev entries) (i + length entries) e
      → IsChainFrom sha256 prev i (entries ++ e ∷ [])
  IsChainFrom-snoc prev i [] e h l = (subst (λ n. IsLinked sha256 prev n e) (add-zero i) l, tt)
  IsChainFrom-snoc prev i (d ∷ entries) e h l = (
    h.0,
    IsChainFrom-snoc d.hash (suc i) entries e h.1 (
        subst (λ n. IsLinked sha256 (hash_before sha256 d.hash entries) n e)
          (shift (length entries)) l),
  )
    where
      shift : (n : ℕ) → i + suc n ≡ suc i + n
      shift n = omega arith

  -- The tail of a chain that is not empty.
  record IsTail (prev : Bytes) (i : ℕ) (entries : List Entry) (e : Entry) : Type 0 where
    at : ℕ
    count : i + length entries ≡ suc at
    last : get_last? entries ≡ some e
    linked : (p : Bytes) × IsLinked sha256 p at e
    before : hash_before sha256 prev entries ≡ e.hash

  IsTail-of_chain :
      (prev : Bytes) (i : ℕ) (e : Entry) (entries : List Entry)
      → IsChainFrom sha256 prev i (e ∷ entries)
      → (d : Entry) × IsTail prev i (e ∷ entries) d
  IsTail-of_chain prev i e [] h =
      (e, record { at = i; count = omega arith; last = refl; linked = (prev, h.0); before = refl })
  IsTail-of_chain prev i e (d ∷ entries) h =
      let rest = IsTail-of_chain e.hash (suc i) d entries h.1 in
      (
        rest.0,
        record {
          at = rest.1.at;
          count = omega (arith, rest.1.count);
          last = rest.1.last;
          linked = rest.1.linked;
          before = rest.1.before;
        },
      )

  pub compute_hash_of_prev :
      (e : Entry) (prev : Bytes)
      → hex_decode e.prev_hash ≡ some prev
      → compute_hash sha256 e ≡ some (hex_encode (sha256 (prev ++ canonical_bytes e)))
  unfolding compute_hash
  compute_hash_of_prev e prev h = rw h

  -- The hash field is not hashed.
  compute_hash-set_hash :
      (e : Entry) (h : Bytes) → compute_hash sha256 (record e { hash = h }) ≡ compute_hash sha256 e
  unfolding compute_hash canonical_bytes
  compute_hash-set_hash e h = refl

  hash_of_linked :
      (p : Bytes) (i : ℕ) (e : Entry)
      → IsLinked sha256 p i e
      → (prev : Bytes) × (hex_decode e.prev_hash ≡ some prev)
        × (e.hash ≡ hex_encode (sha256 (prev ++ canonical_bytes e)))
  hash_of_linked p i e l = elim (Option-cases (hex_decode e.prev_hash)) [
    | inr (prev, found) ↦
        (prev, found, some-injective _ _ (sym l.hash_ok ∙ compute_hash_of_prev e prev found))
    | inl bad ↦ absurd (none-ne-some e.hash (no_hash bad) l.hash_ok)
  ]
    where
      no_hash : hex_decode e.prev_hash ≡ none → compute_hash sha256 e ≡ none
      no_hash bad = unfold compute_hash in rw bad

  module _ (hash_bytes : (x : Bytes) → AreBytes (sha256 x)) (S : Store) (laws : StoreLaws S)
      (now : Int64) (actor action target : Bytes) (details : Details) where
    abbrev draft : Option Entry → Entry
    draft = draft_entry sha256 S now actor action target details

    -- the draft of the next entry fits behind the chain, and its PrevHash is hex
    record IsReady (entries : List Entry) (e : Entry) : Type 0 where
      seq_ok : e.seq ≡ seq_at (length entries)
      link_ok : e.prev_hash ≡ hash_before sha256 genesis_prev_hash entries
      tail_ok : tail_hash entries ≡ hash_before sha256 genesis_prev_hash entries
      prev : Bytes
      prev_ok : hex_decode e.prev_hash ≡ some prev

    draft_after-IsReady :
        (entries : List Entry) (d : Entry)
        → IsTail genesis_prev_hash 0 entries d
        → IsReady entries (draft (some d))
    unfolding draft_entry tail_hash
    draft_after-IsReady entries d t =
        let (p, l) = t.linked in
        let (prev, _, h) = hash_of_linked p t.at d l in
        record {
          seq_ok = omega (arith, l.seq_ok, t.count);
          link_ok = sym t.before;
          tail_ok = rw (t.last, tail_hash) (sym t.before);
          prev = sha256 (prev ++ canonical_bytes d);
          prev_ok = ap hex_decode h ∙ hex_decode-hex_encode _ (hash_bytes _);
        }

    draft-IsReady :
        (entries : List Entry)
        → IsChain sha256 entries
        → IsReady entries (draft (get_last? entries))
    unfolding draft_entry tail_hash
    draft-IsReady [] h = record {
      seq_ok = refl;
      link_ok = refl;
      tail_ok = refl;
      prev = null_bytes 32;
      prev_ok = genesis-hex;
    }
    draft-IsReady (e ∷ entries) h =
        let (d, t) = IsTail-of_chain genesis_prev_hash 0 e entries h in
        rw t.last (draft_after-IsReady (e ∷ entries) d t)

    draft-actor : (o : Option Entry) → (draft o).actor ≡ actor
    unfolding draft_entry
    draft-actor none = refl
    draft-actor (some e) = refl

    draft-action : (o : Option Entry) → (draft o).action ≡ action
    unfolding draft_entry
    draft-action none = refl
    draft-action (some e) = refl

    draft-target : (o : Option Entry) → (draft o).target ≡ target
    unfolding draft_entry
    draft-target none = refl
    draft-target (some e) = refl

    draft-details : (o : Option Entry) → (draft o).details ≡ details
    unfolding draft_entry
    draft-details none = refl
    draft-details (some e) = refl

    draft-time : (o : Option Entry) → (draft o).time_unix_nano ≡ now
    unfolding draft_entry
    draft-time none = refl
    draft-time (some e) = refl

    -- the entry that Append writes behind `entries`
    pub record IsAppended (entries : List Entry) (r : Result Entry × S.State) : Type 0 where
      pub entry : Entry
      pub answer : r.0 ≡ ok entry
      pub stored : laws.entries r.1 ≡ entries ++ entry ∷ []
      pub chain : IsChain sha256 (laws.entries r.1)
      pub actor_ok : entry.actor ≡ actor
      pub action_ok : entry.action ≡ action
      pub target_ok : entry.target ≡ target
      pub details_ok : entry.details ≡ details
      pub time_ok : entry.time_unix_nano ≡ now

    finish_append-IsAppended :
        (s : S.State) (o : Option Entry) (h : Bytes)
        → IsChain sha256 (laws.entries s)
        → IsReady (laws.entries s) (draft o)
        → compute_hash sha256 (draft o) ≡ some h
        → IsAppended (laws.entries s) (S.append false (record (draft o) { hash = h }) s)
    finish_append-IsAppended s o h chain ready hashed =
        let e : Entry = record (draft o) { hash = h } in
        let (answer, stored) =
          laws.append_fit e s ready.seq_ok (ready.link_ok ∙ sym ready.tail_ok) in
        record {
          entry = e;
          answer = answer;
          stored = stored;
          chain = rw stored (
              IsChainFrom-snoc genesis_prev_hash 0 (laws.entries s) e chain (record {
                seq_ok = ready.seq_ok ∙ ap seq_at (sym (zero-add _));
                link_ok = ready.link_ok;
                hash_ok = compute_hash-set_hash (draft o) h ∙ hashed;
              }));
          actor_ok = draft-actor o;
          action_ok = draft-action o;
          target_ok = draft-target o;
          details_ok = draft-details o;
          time_ok = draft-time o;
        }

    -- For a hash function that returns bytes and any store that keeps the contract of its interface:
    -- if the stored entries form a chain and the context is live, Log.Append succeeds, stores one
    -- entry with the content given behind the others, and the entries form a chain again.
    pub log_append-IsAppended :
        (s : S.State)
        → IsChain sha256 (laws.entries s)
        → IsAppended (laws.entries s) (log_append sha256 S false now actor action target details s)
    unfolding log_append append_after
    log_append-IsAppended s chain =
        let ready = draft-IsReady (laws.entries s) chain in
        let hashed =
          compute_hash_of_prev (draft (get_last? (laws.entries s))) ready.prev ready.prev_ok in
        rw (laws.last_eq s, hashed)
          (finish_append-IsAppended s (get_last? (laws.entries s)) _ chain ready hashed)
