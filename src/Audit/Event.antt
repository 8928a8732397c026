-- ===== src/Audit/Event.antt =====
-- The body of verify.go's loops: when it panics, and when an event's result is valid.
use aplikasi_transaksi_kanto.Base.{
  ◌≡◌, refl, ap, ◌∙◌, ◌↔◌, ◌≢◌, ◌⊎◌, inl, inr, true, String, List, [], ◌∷◌, ◌++◌, ◌&&◌, ◌||◌, not,
  str_eq, if◌then◌else◌, length, arith, str_eq_iff,
}
use aplikasi_transaksi_kanto.Crypto.Context.{bind}
use aplikasi_transaksi_kanto.Crypto.Hybrid.{
  Bytes, Primitives, suite_hybrid_ed25519_mldsa65_v1, returned, panicked,
}
use aplikasi_transaksi_kanto.Crypto.Hybrid.Laws.{verify_hybrid_with_hash-cases}
use aplikasi_transaksi_kanto.Audit.{
  Reason, hash_mismatch, classical_key, pqc_key, no_key_reference, database_failure, crypto_reasons,
  with_keys, judged, linked_result, EventResult, KeyRow, no_rows, query_error, row, Verifier,
  lookup_key, Evidence, verify_signature, event_result,
}

-- A key that the table holds and that is not revoked.
abbrev IsUsable : Verifier → String → Bytes → Type 0
IsUsable v key_id public_key =
    (status : String) × (v.db key_id ≡ row public_key status) × (status ≢ "revoked")

data RowCase (r : KeyRow) : Type 0 where
  is_missing : r ≡ no_rows → RowCase r
  is_failed : r ≡ query_error → RowCase r
  is_row : (k : Bytes) (s : String) → r ≡ row k s → RowCase r

row-cases : (r : KeyRow) → RowCase r
row-cases no_rows = is_missing refl
row-cases query_error = is_failed refl
row-cases (row k s) = is_row k s refl

module _ (p : Primitives) (v : Verifier) where
  -- Both keys are usable, and both signatures of the event verify under them in its context.
  abbrev pub IsAuthentic : Evidence → Type 0
  IsAuthentic e =
      (classical pqc : Bytes) × IsUsable v e.classical_key_id classical
      × IsUsable v e.pqc_key_id pqc
      × (e.algorithm_suite ≡ suite_hybrid_ed25519_mldsa65_v1)
      × (p.mldsa_loads pqc ≡ true)
      × (p.ed25519_verify classical (bind e.context e.payload_hash) e.classical_signature ≡ true)
      × (p.mldsa_accepts pqc (bind e.context e.payload_hash) e.pqc_signature ≡ true)

  -- Both keys are found and the suite is the hybrid one, but the classical key is not of 32 bytes.
  abbrev pub IsFatal : Evidence → Type 0
  IsFatal e =
      (classical pqc : Bytes) × (cs ps : String) × (v.db e.classical_key_id ≡ row classical cs)
      × (v.db e.pqc_key_id ≡ row pqc ps)
      × (e.algorithm_suite ≡ suite_hybrid_ed25519_mldsa65_v1)
      × (length classical ≢ 32)

  -- The loop's body returned a result with the event's number, which is valid exactly if the event names
  -- its predecessor and is authentic.
  pub record IsJudged (prev : String) (e : Evidence) : Type 0 where
    pub result : EventResult
    pub returns : event_result p v prev e ≡ returned result
    pub not_fatal : ¬ IsFatal e
    pub sequence : result.event_sequence ≡ e.event_sequence
    pub verdict : (result.valid ≡ true) ↔ ((e.previous_event_hash ≡ prev) × IsAuthentic e)

  abbrev pub EventCase : String → Evidence → Type 0
  EventCase prev e = (IsFatal e × (event_result p v prev e ≡ panicked)) ⊎ IsJudged prev e

  verify_signature-row :
      (result : EventResult) (e : Evidence) (ck : Bytes) (cs : String) (pk : Bytes) (ps : String)
      → v.db e.classical_key_id ≡ row ck cs
      → v.db e.pqc_key_id ≡ row pk ps
      → verify_signature p v result e
        ≡ with_keys p result e ck (str_eq cs "revoked") pk (str_eq ps "revoked")
  unfolding verify_signature lookup_key
  verify_signature-row result e ck cs pk ps c q = rw (c, q, verify_signature, lookup_key) refl

  event_result-row :
      (prev : String) (e : Evidence) (ck : Bytes) (cs : String) (pk : Bytes) (ps : String)
      → v.db e.classical_key_id ≡ row ck cs
      → v.db e.pqc_key_id ≡ row pk ps
      → EventCase prev e
  unfolding event_result
  event_result-row prev e ck cs pk ps c q =
      let linked = str_eq_iff e.previous_event_hash prev in
      let classical = str_eq_iff cs "revoked" in
      let pqc = str_eq_iff ps "revoked" in
      elim (verify_hybrid_with_hash-cases p (record { classical_public = ck; pqc_public = pk })
        (record {
          algorithm_suite = e.algorithm_suite;
          classical_key_id = "";
          pqc_key_id = "";
          classical_signature = e.classical_signature;
          pqc_signature = e.pqc_signature;
        })
        e.context e.payload_hash) [
          | inl (suite, short, panics) ↦ inl (
            (ck, pk, cs, ps, c, q, suite, short),
            ap judged (verify_signature-row (linked_result p v prev e) e ck cs pk ps c q)
                ∙ rw (panics, judged, with_keys) refl,
          )
          | inr (r, err, returns, long, ok) ↦
              let result : EventResult = record {
                event_sequence = e.event_sequence;
                suite_allowed = r.suite_allowed;
                classical_valid = r.classical_valid;
                pqc_valid = r.pqc_valid;
                hash_chain_valid = str_eq e.previous_event_hash prev;
                key_revoked = str_eq cs "revoked" || str_eq ps "revoked";
                valid =
                    r.suite_allowed
                    && r.classical_valid
                    && r.pqc_valid
                    && str_eq e.previous_event_hash prev
                    && not (str_eq cs "revoked" || str_eq ps "revoked");
                reasons =
                    (if str_eq e.previous_event_hash prev
                      then []
                      else hash_mismatch e.previous_event_hash prev ∷ [])
                    ++ crypto_reasons err;
              } in
              inr (record {
                result = result;
                returns =
                    ap judged (verify_signature-row (linked_result p v prev e) e ck cs pk ps c q)
                    ∙ rw (returns, judged, with_keys) refl;
                not_fatal = λ (ck', pk', cs', ps', c', q', suite, short).
                    let same : ck' ≡ ck = cc in short (ap length same ∙ long suite);
                sequence = refl;
                verdict = (
                  (λ h.
                      let (suite, m, f, g) = ok.0 (ground (arith, h)) in
                      (
                        ground (arith, linked, h),
                        (
                          ck,
                          pk,
                          (cs, c, ground (arith, classical, h)),
                          (ps, q, ground (arith, pqc, h)),
                          suite,
                          m,
                          f,
                          g,
                        ),
                      )),
                  (λ (l, (ck', pk', (cs', c', a), (ps', q', b), suite, m, f, g)).
                      let same_classical : ck' ≡ ck = cc in
                      let same_pqc : pk' ≡ pk = cc in
                      let same_cs : cs' ≡ cs = cc in
                      let same_ps : ps' ≡ ps = cc in
                      let passed = ok.1 (suite, ground arith, ground arith, ground arith) in
                      ground (arith, linked, classical, pqc, passed)),
                );
              })
        ]

  -- A result that `verifySignature` has only added a reason to.
  event_result-lookup_fails :
      (prev : String) (e : Evidence) (reasons : List Reason)
      → verify_signature p v (linked_result p v prev e) e
        ≡ returned (record (linked_result p v prev e) { reasons = reasons })
      → ((ck pk : Bytes) (cs ps : String)
          → v.db e.classical_key_id ≡ row ck cs
          → v.db e.pqc_key_id ≡ row pk ps
          → ⊥)
      → EventCase prev e
  unfolding event_result
  event_result-lookup_fails prev e reasons returns unknown = inr (record {
    result = record (linked_result p v prev e) { reasons = reasons };
    returns = ap judged returns;
    not_fatal = λ (ck, pk, cs, ps, c, q, _, _). unknown ck pk cs ps c q;
    sequence = refl;
    verdict = (
      (λ h. absurd (cc)),
      (λ (_, (ck, pk, (cs, c, _), (ps, q, _), _, _, _, _)). absurd (unknown ck pk cs ps c q)),
    );
  })

  pub event_result-cases : (prev : String) (e : Evidence) → EventCase prev e
  unfolding verify_signature lookup_key
  event_result-cases prev e = elim (row-cases (v.db e.classical_key_id)) [
    | is_missing c ↦
        event_result-lookup_fails prev e
          ((linked_result p v prev e).reasons
            ++ (classical_key e.classical_key_id no_key_reference ∷ []))
          (rw (c, verify_signature, lookup_key) refl) (λ ck pk cs ps c' q. cc)
    | is_failed c ↦
        event_result-lookup_fails prev e
          ((linked_result p v prev e).reasons
            ++ (classical_key e.classical_key_id database_failure ∷ []))
          (rw (c, verify_signature, lookup_key) refl) (λ ck pk cs ps c' q. cc)
    | is_row ck cs c ↦ elim (row-cases (v.db e.pqc_key_id)) [
      | is_missing q ↦
          event_result-lookup_fails prev e
            ((linked_result p v prev e).reasons ++ (pqc_key e.pqc_key_id no_key_reference ∷ []))
            (rw (c, q, verify_signature, lookup_key) refl) (λ ck' pk cs' ps c' q'. cc)
      | is_failed q ↦
          event_result-lookup_fails prev e
            ((linked_result p v prev e).reasons ++ (pqc_key e.pqc_key_id database_failure ∷ []))
            (rw (c, q, verify_signature, lookup_key) refl) (λ ck' pk cs' ps c' q'. cc)
      | is_row pk ps q ↦ event_result-row prev e ck cs pk ps c q
    ]
  ]
