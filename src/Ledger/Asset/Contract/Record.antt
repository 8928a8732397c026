-- ===== src/Ledger/Asset/Contract/Record.antt =====
-- What an accepted RecordCustodyEvent has checked, and the stub that it leaves.
use aplikasi_transaksi_kanto.Base.{
  ◌≡◌, ◌≢◌, ◌<◌, true, some, none, String, [], ◌∷◌, str_eq_iff, length, arith, inl, inr,
  Option-cases,
}
use aplikasi_transaksi_kanto.Base.Int64.{pos, succ_int64, eqb_ℤ_iff}
use aplikasi_transaksi_kanto.Base.Format.{sprintf_09d}
use aplikasi_transaksi_kanto.Ledger.Stub.{
  Shim, Stub, ok, update, set_event, get_state, put_state, call-cases,
}
use aplikasi_transaksi_kanto.Ledger.Asset.Lifecycle.{is_lifecycle_transition_allowed}
use aplikasi_transaksi_kanto.Ledger.Asset.Contract.{
  Asset, CustodyEvent, Doc, asset, custody_event, marker, allowed_algorithm_suite, asset_key,
  custody_event_key, idempotency_key, create_asset, get_asset, check_event, check_linkage, advanced,
  store_event, record_custody_event,
}

-- The header that CreateAsset writes.
abbrev pub created : String → String → String → Asset
created id organization_id asset_tag = record {
  id = id;
  organization_id = organization_id;
  asset_tag = asset_tag;
  status = "CREATED";
  latest_event_sequence = pos 0;
  latest_event_payload_hash = "";
}

module _ (sh : Shim) where
  abbrev pub World : Type 0
  World = Stub sh.Key (Doc sh.Key)

  -- The reading steps leave the stub alone, whether they end well or not.
  pub check_event-pure : (evt : CustodyEvent) (s : World) → (check_event sh evt s).1 ≡ s
  unfolding check_event
  check_event-pure evt s = ground arith

  pub check_linkage-pure :
      (a : Asset) (evt : CustodyEvent) (s : World) → (check_linkage sh a evt s).1 ≡ s
  unfolding check_linkage
  check_linkage-pure a evt s = ground arith

  pub get_asset-pure : (id : String) (s : World) → (get_asset sh id s).1 ≡ s
  unfolding get_asset asset_key get_state
  get_asset-pure id s = ground arith

  pub get_asset-ok :
      (id : String) (s : World) {a : Asset} {t : World}
      → get_asset sh id s ≡ (ok a, t)
      → (key : sh.Key) × (sh.create_composite_key "asset" (id ∷ []) ≡ some key)
        × (s.state key ≡ some (asset a))
  unfolding get_asset asset_key get_state
  get_asset-ok id s h = elim (Option-cases (sh.create_composite_key "asset" (id ∷ []))) [
    | inl bad ↦ absurd (ground arith)
    | inr (key, e) ↦ (key, e, ground arith)
  ]

  pub check_event-ok :
      (evt : CustodyEvent) (s : World) {t : World}
      → check_event sh evt s ≡ (ok tt, t)
      → (evt.algorithm_suite ≡ allowed_algorithm_suite)
        × (evt.idempotency_key ≢ "")
        × (evt.to_party ≢ "")
        × (evt.new_status ≢ "")
        × (0 < length evt.classical_signature)
        × (0 < length evt.pqc_signature)
  unfolding check_event
  check_event-ok evt s h = ground (
    arith,
    str_eq_iff evt.algorithm_suite allowed_algorithm_suite,
    str_eq_iff evt.idempotency_key "",
    str_eq_iff evt.to_party "",
    str_eq_iff evt.new_status "",
  )

  pub check_linkage-ok :
      (a : Asset) (evt : CustodyEvent) (s : World) {t : World}
      → check_linkage sh a evt s ≡ (ok tt, t)
      → (evt.event_sequence ≡ succ_int64 a.latest_event_sequence)
        × (evt.previous_event_hash ≡ a.latest_event_payload_hash)
        × (is_lifecycle_transition_allowed a.status evt.new_status ≡ true)
  unfolding check_linkage
  check_linkage-ok a evt s h = ground (
    arith,
    eqb_ℤ_iff evt.event_sequence (succ_int64 a.latest_event_sequence),
    str_eq_iff evt.previous_event_hash a.latest_event_payload_hash,
  )

  -- World state after the three writes of RecordCustodyEvent.
  abbrev pub recorded : World → Asset → CustodyEvent → sh.Key → sh.Key → sh.Key → World
  recorded s a evt evt_key idem header_key = record {
    state =
        update sh (update sh (update sh s.state evt_key (custody_event evt)) idem (marker evt_key))
          header_key (asset (advanced a evt));
    event = some ("CustodyEventRecorded", custody_event evt);
  }

  pub store_event-ok :
      (a : Asset) (evt : CustodyEvent) (idem : sh.Key) (s : World) {t : World}
      → store_event sh a evt idem s ≡ (ok tt, t)
      → (evt_key : sh.Key) × (header_key : sh.Key) × (sh.create_composite_key "custody_event"
            (evt.asset_id ∷ sprintf_09d evt.event_sequence ∷ [])
          ≡ some evt_key)
        × (sh.create_composite_key "asset" (evt.asset_id ∷ []) ≡ some header_key)
        × (t ≡ recorded s a evt evt_key idem header_key)
  unfolding store_event custody_event_key asset_key put_state set_event
  store_event-ok a evt idem s h =
      elim (Option-cases (
        sh.create_composite_key "custody_event"
          (evt.asset_id ∷ sprintf_09d evt.event_sequence ∷ []))) [
            | inl bad ↦ absurd (ground arith)
            | inr (evt_key, e) ↦
                elim (Option-cases (sh.create_composite_key "asset" (evt.asset_id ∷ []))) [
                  | inl bad ↦ absurd (ground arith)
                  | inr (header_key, e2) ↦ (evt_key, header_key, e, e2, ground arith)
                ]
          ]

  -- Everything that an accepted event went through, with the header that it was checked against.
  pub record IsAccepted (evt : CustodyEvent) (s t : World) : Type 0 where
    pub header : Asset
    pub idem : sh.Key
    pub checked : check_event sh evt s ≡ (ok tt, s)
    pub read : get_asset sh evt.asset_id s ≡ (ok header, s)
    pub linked : check_linkage sh header evt s ≡ (ok tt, s)
    pub marked : sh.create_composite_key "idempotency" (evt.idempotency_key ∷ []) ≡ some idem
    pub fresh : s.state idem ≡ none
    pub stored : store_event sh header evt idem s ≡ (ok tt, t)

  pub record_custody_event-IsAccepted :
      (evt : CustodyEvent) (s : World) {t : World}
      → record_custody_event sh (some evt) s ≡ (ok tt, t)
      → IsAccepted evt s t
  unfolding record_custody_event idempotency_key get_state
  record_custody_event-IsAccepted evt s h = elim (call-cases (check_event sh evt s)) [
    | inr (e, s1, q) ↦ absurd (ground arith)
    | inl (u, s1, q) ↦ elim (call-cases (get_asset sh evt.asset_id s)) [
      | inr (e, s2, q2) ↦ absurd (ground (arith, check_event-pure evt s))
      | inl (a, s2, q2) ↦
          elim (Option-cases (sh.create_composite_key "idempotency" (evt.idempotency_key ∷ []))) [
            | inl bad ↦ absurd (
                ground (
                  arith,
                  check_event-pure evt s,
                  get_asset-pure evt.asset_id s,
                  check_linkage-pure a evt s,
                ))
            | inr (idem, q3) ↦ record {
              header = a;
              idem = idem;
              checked = cc (check_event-pure evt s);
              read = cc (get_asset-pure evt.asset_id s);
              linked = ground (
                arith,
                check_event-pure evt s,
                get_asset-pure evt.asset_id s,
                check_linkage-pure a evt s,
              );
              marked = q3;
              fresh = ground (
                arith,
                check_event-pure evt s,
                get_asset-pure evt.asset_id s,
                check_linkage-pure a evt s,
              );
              stored = ground (
                arith,
                check_event-pure evt s,
                get_asset-pure evt.asset_id s,
                check_linkage-pure a evt s,
              );
            }
          ]
    ]
  ]

  pub create_asset-ok :
      (id o tag : String) (s : World) {t : World}
      → create_asset sh id o tag s ≡ (ok tt, t)
      → (key : sh.Key) × (sh.create_composite_key "asset" (id ∷ []) ≡ some key)
        × (s.state key ≡ none)
        × (t.state ≡ update sh s.state key (asset (created id o tag)))
  unfolding create_asset asset_key get_state put_state set_event
  create_asset-ok id o tag s h = elim (Option-cases (sh.create_composite_key "asset" (id ∷ []))) [
    | inl bad ↦ absurd (ground arith)
    | inr (key, e) ↦ (key, e, ground arith, ground arith)
  ]
