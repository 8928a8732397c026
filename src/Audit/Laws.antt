-- ===== src/Audit/Laws.antt =====
-- What the audit service says of a whole history.
use aplikasi_transaksi_kanto.Base.{
  ◌≡◌, refl, sym, ap, ◌∙◌, ◌↔◌, ◌⊎◌, inl, inr, Bool, true, false, Option, some, String, List, [],
  ◌∷◌, ◌++◌, if◌then◌else◌, length, map,
}
use aplikasi_transaksi_kanto.Crypto.Hybrid.{Primitives, Outcome, returned, panicked}
use aplikasi_transaksi_kanto.Audit.{
  WireTransaction, WireTransactionEvent, WireCustodyEvent, EventResult, Receipt, Verifier, Channel,
  Evidence, transaction_evidence, custody_evidence, check_history, some_receipt, verify_transaction,
  verify_asset,
}
use aplikasi_transaksi_kanto.Audit.Event.{IsAuthentic, IsFatal, IsJudged, event_result-cases}

both : (b c : Bool) → ((if b then c else false) ≡ true) ↔ ((b ≡ true) × (c ≡ true))
both true c = ((λ h. (refl, h)), (λ (_, h). h))
both false c = ((λ h. (h, cc)), (λ (h, _). h))

append_nil {ℓ} : {A : Type ℓ} (xs : List A) → xs ++ [] ≡ xs
append_nil [] = refl
append_nil (x ∷ xs) = ap (λ t. x ∷ t) (append_nil xs)

-- The sequence number of a result put last, in front of those of the events to come.
shifted :
    (r : EventResult) (rest : List Evidence) (e : Evidence) (results : List EventResult)
    → r.event_sequence ≡ e.event_sequence
    → map (λ x. x.event_sequence) (results ++ (r ∷ [])) ++ map (λ x. x.event_sequence) rest
      ≡ map (λ x. x.event_sequence) results ++ (e.event_sequence ∷ map (λ x. x.event_sequence) rest)
shifted r rest e [] h = ap (λ n. n ∷ map (λ x. x.event_sequence) rest) h
shifted r rest e (x ∷ results) h = ap (λ t. x.event_sequence ∷ t) (shifted r rest e results h)

module _ (p : Primitives) (v : Verifier) where
  -- Every event names its predecessor's payload hash, the first one `prev`, and is authentic.
  abbrev pub IsSound : String → List Evidence → Type 0
  IsSound prev [] = Unit
  IsSound prev (e ∷ rest) =
      (e.previous_event_hash ≡ prev) × IsAuthentic p v e × IsSound e.payload_hash rest

  -- Some event of the history is fatal.
  abbrev pub HasFatal : List Evidence → Type 0
  HasFatal [] = ⊥
  HasFatal (e ∷ rest) = IsFatal p v e ⊎ HasFatal rest

  -- The loop over the history has gone through it.
  record IsChecked (receipt : Receipt) (prev : String) (history : List Evidence) : Type 0 where
    done : Receipt
    returns : check_history p v receipt prev history ≡ returned done
    not_fatal : ¬ HasFatal history
    id : done.id ≡ receipt.id
    event_count : done.event_count ≡ receipt.event_count
    sequences :
        map (λ r. r.event_sequence) done.events
        ≡ map (λ r. r.event_sequence) receipt.events ++ map (λ e. e.event_sequence) history
    verdict : (done.overall_valid ≡ true) ↔ ((receipt.overall_valid ≡ true) × IsSound prev history)

  abbrev HistoryCase : Receipt → String → List Evidence → Type 0
  HistoryCase receipt prev history =
      (HasFatal history × (check_history p v receipt prev history ≡ panicked))
      ⊎ IsChecked receipt prev history

  check_history-step :
      (receipt : Receipt) (prev : String) (e : Evidence) (rest : List Evidence)
      (j : IsJudged p v prev e)
      → IsChecked
          (record receipt {
            overall_valid = if j.result.valid then receipt.overall_valid else false;
            events = receipt.events ++ (j.result ∷ []);
          })
          e.payload_hash
          rest
      → IsChecked receipt prev (e ∷ rest)
  unfolding check_history
  check_history-step receipt prev e rest j c =
      let all = both j.result.valid receipt.overall_valid in
      record {
        done = c.done;
        returns = rw (j.returns, check_history) c.returns;
        not_fatal = λ f. elim f [ inl a ↦ j.not_fatal a | inr b ↦ c.not_fatal b ];
        id = c.id;
        event_count = c.event_count;
        sequences = c.sequences ∙ shifted j.result rest e receipt.events j.sequence;
        verdict = (
          (λ h.
              let (n, s) = c.verdict.0 h in
              let (valid, r) = all.0 n in let (l, a) = j.verdict.0 valid in (r, (l, a, s))),
          (λ (r, (l, a, s)). c.verdict.1 (all.1 (j.verdict.1 (l, a), r), s)),
        );
      }

  check_history-cases :
      (receipt : Receipt) (prev : String) (history : List Evidence)
      → HistoryCase receipt prev history
  unfolding check_history
  check_history-cases receipt prev [] = inr (record {
    done = receipt;
    returns = refl;
    not_fatal = λ h. h;
    id = refl;
    event_count = refl;
    sequences = sym (append_nil _);
    verdict = ((λ h. (h, tt)), (λ (h, _). h));
  })
  check_history-cases receipt prev (e ∷ rest) = elim (event_result-cases p v prev e) [
    | inl (fatal, panics) ↦ inl (inl fatal, rw (panics, check_history) refl)
    | inr j ↦
        let next : Receipt = record receipt {
          overall_valid = if j.result.valid then receipt.overall_valid else false;
          events = receipt.events ++ (j.result ∷ []);
        } in
        elim (check_history-cases next e.payload_hash rest) [
          | inl (fatal, panics) ↦ inl (inr fatal, rw (j.returns, check_history) panics)
          | inr c ↦ inr (check_history-step receipt prev e rest j c)
        ]
  ]

  -- What a receipt says: it names its subject, counts the events, lists a result for each in order,
  -- and is valid overall exactly if the history is sound.
  abbrev pub IsReportOn : Receipt → String → List Evidence → Type 0
  IsReportOn receipt id history =
      (receipt.id ≡ id)
      × (receipt.event_count ≡ length history)
      × (map (λ r. r.event_sequence) receipt.events ≡ map (λ e. e.event_sequence) history)
      × ((receipt.overall_valid ≡ true) ↔ IsSound "" history)

  -- The answer panics if an event is fatal, and is a receipt of the history if none is.
  abbrev pub IsAnswerOn : Outcome (Option Receipt) → String → List Evidence → Type 0
  IsAnswerOn answer id history =
      (HasFatal history → answer ≡ panicked)
      × (¬ HasFatal history
          → (receipt : Receipt) × (answer ≡ returned (some receipt))
            × IsReportOn receipt id history)

  report :
      (id : String) (history : List Evidence)
      → IsAnswerOn
          (some_receipt (
            check_history p v
              (record { id = id; overall_valid = true; event_count = length history; events = [] })
              ""
              history))
          id
          history
  report id history =
      elim (check_history-cases
        (record { id = id; overall_valid = true; event_count = length history; events = [] }) ""
        history) [
          | inl (fatal, panics) ↦ ((λ _. ap some_receipt panics), (λ fine. absurd (fine fatal)))
          | inr c ↦ (
            (λ fatal. absurd (c.not_fatal fatal)),
            (λ _. (
              c.done,
              ap some_receipt c.returns,
              (
                c.id,
                c.event_count,
                c.sequences,
                ((λ h. (c.verdict.0 h).1), (λ h. c.verdict.1 (refl, h))),
              ),
            )),
          )
        ]

  -- If the ledger answers both queries, Transaction panics if some event names two registered keys and the
  -- hybrid suite but its classical key is not of 32 bytes; otherwise it returns a receipt that names the
  -- transaction, counts its events and has a result for each in order, and that is valid overall exactly if
  -- every event names the payload hash of the one before it (the first one none), is of the hybrid suite,
  -- and carries two signatures that verify, under keys that are registered and not revoked, in the context
  -- of the event's type and the transaction's schema version.
  pub verify_transaction-report :
      (contract : Channel) (id : String) (txn : WireTransaction)
      (history : List WireTransactionEvent)
      → contract.get_transaction id ≡ some txn
      → contract.get_event_history id ≡ some history
      → IsAnswerOn
          (verify_transaction p v contract id)
          id
          (map (transaction_evidence v txn id) history)
  unfolding verify_transaction
  verify_transaction-report contract id txn history t h =
      rw (t, h, verify_transaction) (report id (map (transaction_evidence v txn id) history))

  -- If the ledger answers the query, Asset panics if some custody event names two registered keys and the
  -- hybrid suite but its classical key is not of 32 bytes; otherwise it returns a receipt that names the
  -- asset, counts its custody events and has a result for each in order, and that is valid overall exactly
  -- if every event names the payload hash of the one before it (the first one none), is of the hybrid
  -- suite, and carries two signatures that verify, under keys that are registered and not revoked, in the
  -- context of the event's new status.
  pub verify_asset-report :
      (contract : Channel) (id : String) (history : List WireCustodyEvent)
      → contract.get_custody_history id ≡ some history
      → IsAnswerOn (verify_asset p v contract id) id (map (custody_evidence v id) history)
  unfolding verify_asset
  verify_asset-report contract id history h =
      rw (h, verify_asset) (report id (map (custody_evidence v id) history))
