-- ===== src/Ledger/Asset/Contract/Reach.antt =====
-- The asset ledger as a sequence of committed calls: what lasts, what is refused for good, and that
-- an asset's status follows the custody graph.
use aplikasi_transaksi_kanto.Base.{
  ◌≡◌, ◌≢◌, ◌⊎◌, refl, sym, ap, ◌∙◌, subst, Option, none, some, String, [], ◌∷◌, str_eq, str_eq_iff,
  str_eq_ne, Bool-cases, arith, inl, inr,
}
use aplikasi_transaksi_kanto.Ledger.Stub.{
  Shim, ok, update, update_same, update_other, other_type, other_attributes,
}
use aplikasi_transaksi_kanto.Ledger.Asset.Lifecycle.Machine.{
  Move, is_lifecycle_transition_allowed-iff-Move, retired_stuck, retired_from,
}
use aplikasi_transaksi_kanto.Ledger.Asset.Contract.{
  Asset, CustodyEvent, Doc, asset, custody_event, marker, advanced, create_asset,
  record_custody_event,
}
use aplikasi_transaksi_kanto.Ledger.Asset.Contract.Record.{
  World, get_asset-ok, check_linkage-ok, store_event-ok, record_custody_event-IsAccepted, created,
  create_asset-ok,
}

-- Moves in a row.
pub data Moves (s : String) : String → Type 0 where
  stay : {t : String} → s ≡ t → Moves s t
  move : {t u : String} → Moves s t → Move t u → Moves s u

-- Nothing but RETIRED follows RETIRED.
retired_last : {s t : String} → Moves s t → s ≡ "RETIRED" → t ≡ "RETIRED"
retired_last (stay e) r = sym e ∙ r
retired_last (move p m) r = absurd (retired_stuck m (retired_last p r))

pub marker_types : ◌≢◌ {A = String} "idempotency" "asset" × ◌≢◌ {A = String} "custody_event" "asset"
marker_types = (
  ground (arith, str_eq_iff "idempotency" "asset"),
  ground (arith, str_eq_iff "custody_event" "asset"),
)

module _ (sh : Shim) where
  abbrev State : Type 0
  State = sh.Key → Option (Doc sh.Key)

  abbrev pub IsAssetKey : String → sh.Key → Type 0
  IsAssetKey id k = sh.create_composite_key "asset" (id ∷ []) ≡ some k

  -- One committed call.
  pub data Step (s t : World sh) : Type 0 where
    create : (id org tag : String) → create_asset sh id org tag s ≡ (ok tt, t) → Step s t
    append : (evt : CustodyEvent) → record_custody_event sh (some evt) s ≡ (ok tt, t) → Step s t

  pub data Later (s : World sh) : World sh → Type 0 where
    here : Later s s
    then : {t u : World sh} → Later s t → Step t u → Later s u

  update-taken : (m : State) (j k : sh.Key) (d : Doc sh.Key) → m j ≢ none → update sh m k d j ≢ none
  update-taken m j k d taken = elim (Bool-cases (sh.same_key k j)) [
    | inl same ↦ rw same (λ e. cc)
    | inr other ↦ rw other taken
  ]

  Step-taken : {s t : World sh} (j : sh.Key) → s.state j ≢ none → Step s t → t.state j ≢ none
  Step-taken {s} {t} j taken (create id o tag h) =
      let (key, _, _, e) = create_asset-ok sh id o tag s h in
      subst (λ m. m j ≢ none) (sym e) (update-taken s.state j key (asset (created id o tag)) taken)
  Step-taken {s} {t} j taken (append evt h) =
      let a = record_custody_event-IsAccepted sh evt s h in
      let (evt_key, header_key, _, _, e) = store_event-ok sh a.header evt a.idem s a.stored in
      let m1 : State = update sh s.state evt_key (custody_event evt) in
      let m2 : State = update sh m1 a.idem (marker evt_key) in
      subst (λ w. w.state j ≢ none) (sym e)
        (update-taken m2 j header_key (asset (advanced a.header evt)) (
          update-taken m1 j a.idem (marker evt_key)
            (update-taken s.state j evt_key (custody_event evt) taken)))

  Later-taken : {s t : World sh} (j : sh.Key) → s.state j ≢ none → Later s t → t.state j ≢ none
  Later-taken j taken here = taken
  Later-taken j taken (then l st) = Step-taken j (Later-taken j taken l) st

  -- After a custody event has been recorded, whatever calls follow, no custody event with the same
  -- idempotency key is recorded again.
  pub record_custody_event_once :
      (evt again : CustodyEvent) (s t u v : World sh)
      → record_custody_event sh (some evt) s ≡ (ok tt, t)
      → Later t u
      → again.idempotency_key ≡ evt.idempotency_key
      → record_custody_event sh (some again) u ≢ (ok tt, v)
  record_custody_event_once evt again s t u v first later same second =
      let a = record_custody_event-IsAccepted sh evt s first in
      let b = record_custody_event-IsAccepted sh again u second in
      let (evt_key, header_key, _, _, e) = store_event-ok sh a.header evt a.idem s a.stored in
      let m1 : State = update sh s.state evt_key (custody_event evt) in
      let m2 : State = update sh m1 a.idem (marker evt_key) in
      let marked : m2 a.idem ≢ none = λ q. cc (update_same sh m1 a.idem (marker evt_key)) in
      let still : t.state a.idem ≢ none =
        subst (λ w. w.state a.idem ≢ none) (sym e)
          (update-taken m2 a.idem header_key (asset (advanced a.header evt)) marked) in
      let at_b : a.idem ≡ b.idem = cc (a.marked, b.marked) in
      Later-taken a.idem still later (ap (u.state) at_b ∙ b.fresh)

  abbrev pub HasHeader : State → sh.Key → Asset → Type 0
  HasHeader m k a = m k ≡ some (asset a)

  Step-Moves :
      {s t : World sh} {id : String} {k : sh.Key} {a : Asset}
      → IsAssetKey id k
      → HasHeader s.state k a
      → Step s t
      → (later : Asset) × HasHeader t.state k later
        × ((a.status ≡ later.status) ⊎ Move a.status later.status)
  Step-Moves {s} {t} {id} {k} {a} is_k found (create id' o tag h) =
      let (key, is_key, free, e) = create_asset-ok sh id' o tag s h in
      let ne : key ≢ k = λ p. let at_k : s.state k ≡ none = cc in cc in
      (
        a,
        subst (λ m. HasHeader m k a) (sym e)
            (update_other sh s.state key k (asset (created id' o tag)) ne ∙ found),
        inl refl,
      )
  Step-Moves {s} {t} {id} {k} {a} is_k found (append evt h) =
      let b = record_custody_event-IsAccepted sh evt s h in
      let (k', is_k', found') = get_asset-ok sh evt.asset_id s b.read in
      let (evt_key, header_key, is_evt, is_header, e) =
        store_event-ok sh b.header evt b.idem s b.stored in
      let (_, _, allowed) = check_linkage-ok sh b.header evt s b.linked in
      let m1 : State = update sh s.state evt_key (custody_event evt) in
      let m2 : State = update sh m1 b.idem (marker evt_key) in
      let found2 : HasHeader m2 k a =
        update_other sh m1 b.idem k (marker evt_key) (other_type sh marker_types.0 b.marked is_k)
        ∙ update_other sh s.state evt_key k (custody_event evt)
            (other_type sh marker_types.1 is_evt is_k)
        ∙ found in
      let new : Asset = advanced b.header evt in
      elim (Bool-cases (str_eq evt.asset_id id)) [
        | inl same ↦
            let p : evt.asset_id ≡ id = (str_eq_iff evt.asset_id id).0 same in
            let at_k : header_key ≡ k = cc in
            let same_header : b.header ≡ a = let at_k' : k' ≡ k = cc in cc in
            (
              new,
              subst (λ w. HasHeader (w.state) k new) (sym e)
                  (subst (λ j. HasHeader (update sh m2 header_key (asset new)) j new) at_k
                    (update_same sh m2 header_key (asset new))),
              inr (
                  subst (λ x. Move (x.status) evt.new_status) same_header
                    ((is_lifecycle_transition_allowed-iff-Move b.header.status evt.new_status).0
                      allowed)),
            )
        | inr other ↦ (
          a,
          subst (λ w. HasHeader (w.state) k a) (sym e)
              (update_other sh m2 header_key k (asset new)
                  (other_attributes sh (λ q. str_eq_ne evt.asset_id id other (cc q)) is_header is_k)
                ∙ found2),
          inl refl,
        )
      ]

  Step-extends : {r : String} {a b : String} → Moves r a → (a ≡ b) ⊎ Move a b → Moves r b
  Step-extends p (inl same) = subst (Moves _) same p
  Step-extends p (inr mv) = move p mv

  -- Whatever calls follow, an asset that is registered stays registered, and its status then is
  -- reached from its status now along the edges of the custody graph.
  pub status_follows_graph :
      {id : String} {s t : World sh} (k : sh.Key) (a : Asset)
      → IsAssetKey id k
      → HasHeader s.state k a
      → Later s t
      → (later : Asset) × HasHeader t.state k later × Moves a.status later.status
  status_follows_graph k a is_k found here = (a, found, stay refl)
  status_follows_graph k a is_k found (then l st) =
      let (mid, at_mid, p) = status_follows_graph k a is_k found l in
      let (last, at_last, q) = Step-Moves is_k at_mid st in (last, at_last, Step-extends p q)

  -- An asset that is not RETIRED now and is later has been STORED in between: no event takes an asset of
  -- another status, RETURNED included, to RETIRED.
  pub retirement_follows_store :
      {id : String} (k : sh.Key) (a : Asset) (s t : World sh) (last : Asset)
      → IsAssetKey id k
      → HasHeader s.state k a
      → a.status ≢ "RETIRED"
      → Later s t
      → HasHeader t.state k last
      → last.status ≡ "RETIRED"
      → (u : World sh) × (b : Asset) × Later s u
        × Later u t
        × HasHeader u.state k b
        × (b.status ≡ "STORED")
  retirement_follows_store k a s t last is_k found open_now here at_t retired =
      absurd (let same : last ≡ a = cc in open_now (cc))
  retirement_follows_store k a s t last is_k found open_now (then {t = m} l st) at_t retired =
      let (mid, at_mid, p) = status_follows_graph k a is_k found l in
      let (next, at_next, q) = Step-Moves is_k at_mid st in
      let same : next ≡ last = cc in
      let is_retired : next.status ≡ "RETIRED" = ap (λ x. x.status) same ∙ retired in
      elim (Bool-cases (str_eq mid.status "RETIRED")) [
        | inl already ↦
            let (u, b, before, after, at_u, stored) =
              retirement_follows_store k a s m mid is_k found open_now l at_mid
                ((str_eq_iff mid.status "RETIRED").0 already) in
            (u, b, before, then after st, at_u, stored)
        | inr not_yet ↦ elim q [
          | inl stays ↦ absurd (str_eq_ne mid.status "RETIRED" not_yet (stays ∙ is_retired))
          | inr mv ↦ (m, mid, l, then here st, at_mid, retired_from mv is_retired)
        ]
      ]

  -- Once an asset is RETIRED, whatever calls follow, no custody event of it is recorded.
  pub retired_asset_closed :
      (k : sh.Key) (a : Asset) (evt : CustodyEvent) (s t u : World sh)
      → IsAssetKey evt.asset_id k
      → HasHeader s.state k a
      → a.status ≡ "RETIRED"
      → Later s t
      → record_custody_event sh (some evt) t ≢ (ok tt, u)
  retired_asset_closed k a evt s t u is_k found retired later accepted =
      let b = record_custody_event-IsAccepted sh evt t accepted in
      let (k', is_k', found') = get_asset-ok sh evt.asset_id t b.read in
      let (_, _, allowed) = check_linkage-ok sh b.header evt t b.linked in
      let (last, at_last, p) = status_follows_graph k a is_k found later in
      let same_header : last ≡ b.header = let at_k' : k' ≡ k = cc in cc in
      retired_stuck
        ((is_lifecycle_transition_allowed-iff-Move b.header.status evt.new_status).0 allowed)
        (subst (λ x. x.status ≡ "RETIRED") same_header (retired_last p retired))
