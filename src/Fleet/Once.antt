-- ===== src/Fleet/Once.antt =====
-- A join token of go/controlplane/fleet/fleet.go is good once, until it expires.
use purser.Prelude.{
  ℕ, ◌+◌, ◌/◌, ◌≤◌, ◌≡◌, ◌≢◌, ◌⊎◌, inl, inr, refl, true, false, some, List, [], ◌∷◌, ◌++◌,
  if◌then◌else◌, ltb, ◌==◌, arith, Bool-cases, Option-cases, ap, sym, ◌∙◌, subst,
}
use mathlib.Core.Option.{some-injective}
use purser.Config.Result.{ok, err}
use purser.Permissions.Text.{Text, text_eq, text_eq_iff}
use purser.License.Text.{HasNo}
use purser.Fleet.Token.{
  JoinToken, TokenPayload, invalid_token, TokenCodec, Used, use_nonce, second, hour, dot, cut,
  generate_join_token, validate_token, used_after,
}

module _ (C : TokenCodec) where
  -- The token is signed, its payload is `p`, it is not expired and not used.
  pub record IsGood (now : ℕ) (used : Used) (token : Text) : Type 0 where
    pub body : Text
    pub parts : cut dot token ≡ some (body, C.sign body)
    pub payload : TokenPayload
    pub decoded : C.decode body ≡ some payload
    pub in_time : now / second ≤ payload.exp
    pub fresh : used payload.nonce ≡ false

  pub validate_token-cases :
      (now : ℕ) (used : Used) (token : Text)
      → ((validate_token C now used token).1 ≡ used) × ((validate_token C now used token).0 ≢ ok tt)
        ⊎ ((g : IsGood now used token) × (validate_token C now used token
              ≡ (ok tt, use_nonce g.payload.nonce used)))
  unfolding validate_token
  validate_token-cases now used token = elim (Option-cases (cut dot token)) [
    | inl whole ↦ rw (validate_token, whole) (inl (refl, λ e. absurd (ground (arith, e))))
    | inr ((body, sig), parts) ↦ elim (Bool-cases (text_eq sig (C.sign body))) [
      | inr forged ↦
          rw (validate_token, parts, forged) (inl (refl, λ e. absurd (ground (arith, e))))
      | inl signed ↦ elim (Option-cases (C.decode body)) [
        | inl garbled ↦
            rw (validate_token, parts, signed, garbled)
              (inl (refl, λ e. absurd (ground (arith, e))))
        | inr (p, decoded) ↦ elim (Bool-cases (ltb p.exp (now / second))) [
          | inl late ↦
              rw (validate_token, parts, signed, decoded, late)
                (inl (refl, λ e. absurd (ground (arith, e))))
          | inr in_time ↦ elim (Bool-cases (used p.nonce)) [
            | inl again ↦
                rw (validate_token, parts, signed, decoded, in_time, again)
                  (inl (refl, λ e. absurd (ground (arith, e))))
            | inr fresh ↦
                rw (validate_token, parts, signed, decoded, in_time, fresh)
                  (inr (
                    record {
                      body = body;
                      parts =
                          parts
                          ∙ ap (λ s. some (body, s)) ((text_eq_iff sig (C.sign body)).0 signed);
                      payload = p;
                      decoded = decoded;
                      in_time = ground (arith, in_time);
                      fresh = fresh;
                    },
                    refl,
                  ))
          ]
        ]
      ]
    ]
  ]

  still_used :
      (now : ℕ) (used : Used) (token n : Text)
      → used n ≡ true
      → (validate_token C now used token).1 n ≡ true
  unfolding use_nonce
  still_used now used token n h = elim (validate_token-cases now used token) [
    | inl same ↦ ap (λ u. u n) same.0 ∙ h
    | inr (g, e) ↦ ap (λ r. r.1 n) e ∙ kept g
  ]
    where
      kept : (g : IsGood now used token) → use_nonce g.payload.nonce used n ≡ true
      kept g = rw (use_nonce, h) ground arith

  stays_used :
      (later : List (ℕ × Text)) (used : Used) (n : Text)
      → used n ≡ true
      → used_after C used later n ≡ true
  unfolding used_after
  stays_used [] used n h = h
  stays_used ((now, token) ∷ later) used n h =
      stays_used later (validate_token C now used token).1 n (still_used now used token n h)

  use_nonce-used : (n : Text) (used : Used) → use_nonce n used n ≡ true
  unfolding use_nonce
  use_nonce-used n used = rw ((text_eq_iff n n).1 refl) refl

  same_payload :
      (t1 t2 : ℕ) (u1 u2 : Used) (token : Text) (g : IsGood t1 u1 token) (h : IsGood t2 u2 token)
      → h.payload ≡ g.payload
  same_payload t1 t2 u1 u2 token g h =
      let bodies : h.body ≡ g.body = ap (λ p. p.0) (some-injective _ _ (sym h.parts ∙ g.parts)) in
      some-injective _ _ (sym h.decoded ∙ (ap C.decode bodies ∙ g.decoded))

  -- A token that validateToken accepts once is never accepted again, whatever tokens are validated in
  -- between and whenever.
  pub validate_token-once :
      (now : ℕ) (used : Used) (token : Text) (later : List (ℕ × Text)) (again : ℕ)
      → (validate_token C now used token).0 ≡ ok tt
      → (validate_token C again (used_after C (validate_token C now used token).1 later) token).0
        ≢ ok tt
  validate_token-once now used token later again first second_time =
      elim (validate_token-cases now used token) [
        | inl refused ↦ refused.1 first
        | inr (g, e) ↦
            let after = used_after C (validate_token C now used token).1 later in
            elim (validate_token-cases again after token) [
              | inl refused ↦ refused.1 second_time
              | inr (h, e2) ↦
                  let spent : after g.payload.nonce ≡ true =
                    stays_used later _ g.payload.nonce
                      (ap (λ r. r.1 g.payload.nonce) e ∙ use_nonce-used g.payload.nonce used) in
                  let same = same_payload now again used after token g h in
                  ground (arith, sym h.fresh ∙ (ap (λ p. after p.nonce) same ∙ spent))
            ]
      ]

  -- What the coder and the signature promise: a payload survives its coding, whose alphabet has no dot.
  pub record CodecLaws : Type 0 where
    pub decode-encode :
        (p : TokenPayload) (body : Text) → C.encode p ≡ some body → C.decode body ≡ some p
    pub no_dot : (p : TokenPayload) (body : Text) → C.encode p ≡ some body → HasNo dot body

  cut-HasNo : (s t : Text) → HasNo dot s → cut dot (s ++ dot ∷ t) ≡ some (s, t)
  unfolding cut
  cut-HasNo [] t h = refl
  cut-HasNo (c ∷ s) t h = rw (h.0, cut-HasNo s t h.1) refl

  -- The token that GenerateJoinToken returns is accepted up to the second it expires in, on a manager
  -- that has not seen its nonce, and refused from the next second on.
  pub validate-generate :
      (laws : CodecLaws) (made ttl now : ℕ) (nonce : Text) (t : JoinToken) (used : Used)
      → (generate_join_token C made ttl (some nonce)).0 ≡ ok t
      → used nonce ≡ false
      → (validate_token C now used t.token ≡ (
          if ltb (t.expires_at / second) (now / second)
          then (err invalid_token, used)
          else (ok tt, use_nonce nonce used)))
        × (made ≤ t.expires_at)
  unfolding generate_join_token validate_token
  validate-generate laws made ttl now nonce t used h fresh =
      let exp = made + (if ttl == 0 then hour else ttl) in
      let p : TokenPayload = record { exp = exp / second; nonce = nonce } in
      elim (Option-cases (C.encode p)) [
        | inl garbled ↦ absurd (ground (arith, rw (generate_join_token, garbled) at h))
        | inr (body, coded) ↦
            let same : record { token = body ++ dot ∷ C.sign body; expires_at = exp; uses = 1 }
                ≡ t =
              ground (arith, rw (generate_join_token, coded) at h) in
            subst
              (λ t.
                (validate_token C now used t.token ≡ (
                  if ltb (t.expires_at / second) (now / second)
                  then (err invalid_token, used)
                  else (ok tt, use_nonce nonce used)))
                × (made ≤ t.expires_at))
              same
              (
                rw
                    (
                      validate_token,
                      cut-HasNo body (C.sign body) (laws.no_dot p body coded),
                      (text_eq_iff (C.sign body) (C.sign body)).1 refl,
                      laws.decode-encode p body coded,
                      fresh,
                    )
                    refl,
                omega arith,
              )
      ]
