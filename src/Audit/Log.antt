-- ===== src/Audit/Log.antt =====
-- Verify, MemStore and Log, go/controlplane/audit (audit.go, store.go, log.go). A context is the
-- answer of ctx.Err(), the clock is the time it shows; deep copies are values.
use purser.Prelude.{
  ℕ, zero, suc, ◌+◌, ◌%◌, ◌^◌, ◌≡◌, Bool, false, not, Option, none, some, List, [], ◌∷◌, ◌++◌,
  if◌then◌else◌, length, ◌==◌, get_last?,
}
use purser.Audit.Encode.{Bytes, Int64, bytes_eq}
use purser.Audit.Entry.{Details, Entry, first_seq, compute_hash}

pub data Kind : Type 0 where
  kind_seq kind_link kind_hash : Kind

-- VerifyError, less its message
pub record VerifyError : Type 0 where
  pub index : ℕ
  pub seq : ℕ
  pub kind : Kind

pub data Error : Type 0 where
  cancelled non_contiguous broken_link bad_prev_hash : Error

pub data Result {ℓ} (A : Type ℓ) : Type ℓ where
  ok : A → Result A
  err : Error → Result A

-- 64 times the digit 0
abbrev pub zeros : ℕ → Bytes
zeros = elim [ zero ↦ [] | suc (n → ih) ↦ b'0' ∷ ih ]

abbrev pub genesis_prev_hash : Bytes
genesis_prev_hash = zeros 64

-- FirstSeq + uint64(i)
abbrev pub seq_at : ℕ → ℕ
seq_at i = (first_seq + i) % 2 ^ 64

-- the default of PrevHash, or the hash of the tail
unfoldable pub tail_hash : List Entry → Bytes
tail_hash entries = elim (get_last? entries) [ none ↦ genesis_prev_hash | some e ↦ e.hash ]

-- A store of the entries that a Log writes: the interface Store of store.go.
pub record Store : Type 1 where
  pub State : Type 0
  pub append : Bool → Entry → State → Result Entry × State
  pub list : Bool → State → Result (List Entry)
  pub last : Bool → State → Result (Option Entry)

-- What Log relies on: a store is a list of entries, which append extends by an entry that fits and
-- leaves alone otherwise.
pub record StoreLaws (S : Store) : Type 0 where
  pub entries : S.State → List Entry
  pub list_eq : (s : S.State) → S.list false s ≡ ok (entries s)
  pub last_eq : (s : S.State) → S.last false s ≡ ok (get_last? (entries s))
  pub append_fit :
      (e : Entry) (s : S.State)
      → e.seq ≡ seq_at (length (entries s))
      → e.prev_hash ≡ tail_hash (entries s)
      → ((S.append false e s).0 ≡ ok e) × (entries (S.append false e s).1 ≡ entries s ++ e ∷ [])

unfoldable pub mem_append : Bool → Entry → List Entry → Result Entry × List Entry
mem_append is_cancelled e entries =
    if is_cancelled
    then (err cancelled, entries)
    else if not (e.seq == seq_at (length entries))
    then (err non_contiguous, entries)
    else if not (bytes_eq e.prev_hash (tail_hash entries))
    then (err broken_link, entries)
    else (ok e, entries ++ e ∷ [])

unfoldable pub mem_list : Bool → List Entry → Result (List Entry)
mem_list is_cancelled entries = if is_cancelled then err cancelled else ok entries

unfoldable pub mem_last : Bool → List Entry → Result (Option Entry)
mem_last is_cancelled entries = if is_cancelled then err cancelled else ok (get_last? entries)

abbrev pub mem_store : Store
mem_store = record { State = List Entry; append = mem_append; list = mem_list; last = mem_last }

abbrev pub broken : ℕ → Entry → Kind → Option VerifyError
broken i e k = some (record { index = i; seq = e.seq; kind = k })

abbrev pub check_hash : ℕ → Entry → Option Bytes → Option VerifyError
check_hash i e none = broken i e kind_hash
check_hash i e (some want) = if bytes_eq e.hash want then none else broken i e kind_hash

module _ (sha256 : Bytes → Bytes) where
  -- the body of the loop of Verify at index `i`
  unfoldable pub check_entry : Bytes → ℕ → Entry → Option VerifyError
  check_entry prev i e =
      if not (e.seq == seq_at i)
      then broken i e kind_seq
      else if not (bytes_eq e.prev_hash prev)
      then broken i e kind_link
      else check_hash i e (compute_hash sha256 e)

  abbrev pub or_go : Option VerifyError → Option VerifyError → Option VerifyError
  or_go none rest = rest
  or_go (some e) rest = some e

  unfoldable pub verify_from : Bytes → ℕ → List Entry → Option VerifyError
  unfolding check_entry
  verify_from prev i [] = none
  verify_from prev i (e ∷ entries) =
      or_go (check_entry prev i e) (verify_from e.hash (suc i) entries)

  -- `none` is the nil error.
  unfoldable pub verify : List Entry → Option VerifyError
  unfolding verify_from
  verify entries = verify_from genesis_prev_hash 0 entries

  module _ (S : Store) where
    -- the entry without its hash; Seq wraps as a uint64
    unfoldable pub draft_entry : Int64 → Bytes → Bytes → Bytes → Details → Option Entry → Entry
    draft_entry now actor action target details none = record {
      seq = first_seq;
      time_unix_nano = now;
      actor = actor;
      action = action;
      target = target;
      details = details;
      prev_hash = genesis_prev_hash;
      hash = [];
    }
    draft_entry now actor action target details (some last) = record {
      seq = (last.seq + 1) % 2 ^ 64;
      time_unix_nano = now;
      actor = actor;
      action = action;
      target = target;
      details = details;
      prev_hash = last.hash;
      hash = [];
    }

    unfoldable pub finish_append : Bool → S.State → Entry → Option Bytes → Result Entry × S.State
    finish_append is_cancelled s e none = (err bad_prev_hash, s)
    finish_append is_cancelled s e (some hash) = S.append is_cancelled (record e { hash = hash }) s

    unfoldable pub append_after :
        Bool
        → Int64
        → Bytes
        → Bytes
        → Bytes
        → Details
        → S.State
        → Result (Option Entry)
        → Result Entry × S.State
    unfolding draft_entry finish_append
    append_after is_cancelled now actor action target details s (err c) = (err c, s)
    append_after is_cancelled now actor action target details s (ok last) =
        let e = draft_entry now actor action target details last in
        finish_append is_cancelled s e (compute_hash sha256 e)

    unfoldable pub log_append :
        Bool → Int64 → Bytes → Bytes → Bytes → Details → S.State → Result Entry × S.State
    unfolding append_after
    log_append is_cancelled now actor action target details s =
        if is_cancelled
        then (err cancelled, s)
        else append_after is_cancelled now actor action target details s (S.last is_cancelled s)

    abbrev verify_list : Result (List Entry) → Result (Option VerifyError)
    verify_list (ok entries) = ok (verify entries)
    verify_list (err c) = err c

    unfoldable pub log_verify : Bool → S.State → Result (Option VerifyError)
    log_verify is_cancelled s = verify_list (S.list is_cancelled s)
