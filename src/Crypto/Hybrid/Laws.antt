-- ===== src/Crypto/Hybrid/Laws.antt =====
-- What is signed verifies, and what verifies has passed every check.
use aplikasi_transaksi_kanto.Base.{
  ◌≡◌, ◌≢◌, ◌↔◌, ◌⊎◌, refl, str_eq, Bool, true, false, Option, none, some, String, arith,
  str_eq_iff, Option-cases, inl, inr, subst₂, ap, some-injective, length, Bool-cases, ◌==◌,
}
use aplikasi_transaksi_kanto.Crypto.Context.{SigningContext, bind}
use aplikasi_transaksi_kanto.Crypto.Hybrid.{
  Bytes, Outcome, returned, panicked, Primitives, HybridSignature, SigningIdentity,
  VerificationKeys, VerifyHybridResult, result_ok, CryptoError, suite_refused, bad_public_key,
  suite_allowed, suite_hybrid_ed25519_mldsa65_v1, sign_classical, verify_classical, sign_mldsa,
  verify_mldsa, sign_hybrid, verify_hybrid_with_hash, verify_hybrid,
}

pub returned-injective {ℓ} : {A : Type ℓ} {a b : A} → returned a ≡ returned b → a ≡ b
returned-injective h = cc

-- The call returned, and OK.
abbrev pub accepts : Outcome (VerifyHybridResult × Option CryptoError) → Bool
accepts panicked = false
accepts (returned (r, _)) = result_ok r

module _ (p : Primitives) where
  -- The public halves of an identity's keys.
  abbrev pub keys_of : SigningIdentity → VerificationKeys
  keys_of identity = record {
    classical_public = p.ed25519_public identity.classical_private;
    pqc_public = p.mldsa_public identity.pqc_private;
  }

  abbrev good : Outcome (VerifyHybridResult × Option CryptoError)
  good = returned (record { suite_allowed = true; classical_valid = true; pqc_valid = true }, none)

  -- For a signer whose classical key is that of a seed of 32 bytes, an envelope that SignHybrid returns
  -- verifies with no error and all three checks passed, under the signer's public keys, in the same
  -- context, both against the payload and against the hash that SignHybrid returned with it.
  pub sign_hybrid-verifies :
      (identity : SigningIdentity) (seed : Bytes) (ctx : SigningContext) (payload : Option String)
      (sig : HybridSignature) (hash : String)
      → length seed ≡ 32
      → identity.classical_private ≡ p.ed25519_new_key seed
      → sign_hybrid p identity ctx payload ≡ returned (some (sig, hash))
      → (verify_hybrid_with_hash p (keys_of identity) sig ctx hash ≡ good)
        × (verify_hybrid p (keys_of identity) sig ctx payload ≡ good)
  unfolding sign_hybrid verify_hybrid verify_hybrid_with_hash sign_classical sign_mldsa
      verify_classical verify_mldsa suite_allowed
  sign_hybrid-verifies identity seed ctx none sig hash size drawn h = ground arith
  sign_hybrid-verifies identity seed ctx (some x) sig hash size drawn h =
      elim (Option-cases (p.mldsa_sign identity.pqc_private (bind ctx x))) [
        | inl fails ↦ absurd (ground (arith, fails, h))
        | inr (s, signed) ↦
            let (loads, accepted) = p.mldsa_correct identity.pqc_private (bind ctx x) s signed in
            let classical = p.ed25519_correct seed (bind ctx x) size in
            let public_size = p.ed25519_public_size seed size in
            elim (Bool-cases (length identity.classical_private == 64)) [
              | inr short ↦ absurd (ground (arith, short, h))
              | inl long ↦
                  let made =
                    some-injective _ _ (returned-injective (rw (long, signed, sign_hybrid) at h)) in
                  subst₂
                    (λ e g.
                      (verify_hybrid_with_hash p (keys_of identity) e ctx g ≡ good)
                      × (verify_hybrid_with_hash p (keys_of identity) e ctx x ≡ good))
                    (ap (λ r. r.0) made) (ap (λ r. r.1) made)
                    (
                      rw (drawn, public_size) (ground (arith, loads, accepted, classical)),
                      rw (drawn, public_size) (ground (arith, loads, accepted, classical)),
                    )
            ]
      ]

  -- The four checks of a verification that returned.
  abbrev pub IsVerified : VerificationKeys → HybridSignature → SigningContext → String → Type 0
  IsVerified keys sig ctx hash =
      (sig.algorithm_suite ≡ suite_hybrid_ed25519_mldsa65_v1)
      × (p.mldsa_loads keys.pqc_public ≡ true)
      × (p.ed25519_verify keys.classical_public (bind ctx hash) sig.classical_signature ≡ true)
      × (p.mldsa_accepts keys.pqc_public (bind ctx hash) sig.pqc_signature ≡ true)

  -- A verification panics, for a classical key of another length, or returns a result.
  pub verify_hybrid_with_hash-cases :
      (keys : VerificationKeys) (sig : HybridSignature) (ctx : SigningContext) (hash : String)
      → ((sig.algorithm_suite ≡ suite_hybrid_ed25519_mldsa65_v1)
          × (length keys.classical_public ≢ 32)
          × (verify_hybrid_with_hash p keys sig ctx hash ≡ panicked))
        ⊎ ((r : VerifyHybridResult) × (e : Option CryptoError) × (verify_hybrid_with_hash p keys sig
                ctx hash
              ≡ returned (r, e))
            × (sig.algorithm_suite ≡ suite_hybrid_ed25519_mldsa65_v1
                → length keys.classical_public ≡ 32)
            × ((result_ok r ≡ true) ↔ IsVerified keys sig ctx hash))
  unfolding verify_hybrid_with_hash verify_classical verify_mldsa suite_allowed
  verify_hybrid_with_hash-cases keys sig ctx hash =
      let suite = str_eq_iff sig.algorithm_suite suite_hybrid_ed25519_mldsa65_v1 in
      let verified =
        p.ed25519_verify keys.classical_public (bind ctx hash) sig.classical_signature in
      let accepted = p.mldsa_accepts keys.pqc_public (bind ctx hash) sig.pqc_signature in
      elim (Bool-cases (str_eq sig.algorithm_suite suite_hybrid_ed25519_mldsa65_v1)) [
        | inr other ↦ inr (
          record { suite_allowed = false; classical_valid = false; pqc_valid = false },
          some suite_refused,
          rw other refl,
          (λ q. absurd (ground (arith, suite, other))),
          ((λ h. absurd (cc)), (λ h. absurd (ground (arith, suite, other)))),
        )
        | inl same ↦ elim (Bool-cases (length keys.classical_public == 32)) [
          | inr short ↦ inl (suite.0 same, ground arith, rw (same, short) refl)
          | inl long ↦ elim (Bool-cases (p.mldsa_loads keys.pqc_public)) [
            | inr bad ↦ inr (
              record { suite_allowed = true; classical_valid = verified; pqc_valid = false },
              some bad_public_key,
              rw (same, long, bad) refl,
              (λ q. ground arith),
              ((λ h. ground arith), (λ h. ground arith)),
            )
            | inl loads ↦ inr (
              record { suite_allowed = true; classical_valid = verified; pqc_valid = accepted },
              none,
              rw (same, long, loads) refl,
              (λ q. ground arith),
              ((λ h. ground (arith, suite)), (λ h. ground arith)),
            )
          ]
        ]
      ]

  -- Verification is fail-closed: it returns a result that is OK exactly if the suite is the hybrid one, the
  -- classical key has 32 bytes, the post-quantum key loads, and both signatures verify over the bound
  -- context and hash.
  pub verify_hybrid_with_hash_iff :
      (keys : VerificationKeys) (sig : HybridSignature) (ctx : SigningContext) (hash : String)
      → (accepts (verify_hybrid_with_hash p keys sig ctx hash) ≡ true)
        ↔ ((length keys.classical_public ≡ 32) × IsVerified keys sig ctx hash)
  verify_hybrid_with_hash_iff keys sig ctx hash =
      elim (verify_hybrid_with_hash-cases keys sig ctx hash) [
        | inl (suite, short, q) ↦ rw q ((λ h. absurd (cc)), (λ (long, _). absurd (short long)))
        | inr (r, e, q, long, ok) ↦
            rw q ((λ h. let v = ok.0 h in (long v.0, v)), (λ (_, v). ok.1 v))
      ]
