-- ===== src/Office/Ledger/History.antt =====
-- The ledger behind every history of office requests.
use aplikasi_transaksi_kanto.Base.{
  ◌≡◌, refl, none, some, Option, String, List, [], ◌∷◌, arith, str_eq_ne, Option-cases, inl, inr,
}
use aplikasi_transaksi_kanto.Store.Dict.{lookup}
use aplikasi_transaksi_kanto.Ledger.Stub.{Shim, ok as done}
use aplikasi_transaksi_kanto.Ledger.Transaction.Contract.Record.{World}
use aplikasi_transaksi_kanto.Ledger.Transaction.Contract.Reach.{genesis}
use aplikasi_transaksi_kanto.Office.Types.{OfficeIdentity, Store, empty_store}
use aplikasi_transaksi_kanto.Office.Database.{transact, pure}
use aplikasi_transaksi_kanto.Office.Events.{Site, Request, last_event, has_key}
use aplikasi_transaksi_kanto.Office.Events.Laws.{IsSite}
use aplikasi_transaksi_kanto.Office.Auth.{Headers, Membership, office_auth, office_set_role}
use aplikasi_transaksi_kanto.Office.Actions.{office_submit, office_complete, office_cancel}
use aplikasi_transaksi_kanto.Office.Documents.{office_download, joined_document}
use aplikasi_transaksi_kanto.Office.Create.{office_create_transaction}
use aplikasi_transaksi_kanto.Office.Decision.{TtdVerifier}
use aplikasi_transaksi_kanto.Office.History.{Route, route, handle, serve}
use aplikasi_transaksi_kanto.Office.Ledger.{IsServing, replay, Mirrors}
use aplikasi_transaksi_kanto.Office.Ledger.Append.{
  HasMirror, IsMirrored-same, then_keeps, bind_keeps,
}
use aplikasi_transaksi_kanto.Office.Ledger.Steps.{
  simple_step_mirrored, office_create_transaction_mirrored,
}
use aplikasi_transaksi_kanto.Office.Ledger.Decide.{office_decision_mirrored}

module _ (sh : Shim) where
  pub empty_mirrored : HasMirror sh empty_store.db
  unfolding replay lookup last_event has_key
  empty_mirrored = (
    genesis sh,
    record {
      replayed = refl;
      mirrors = record {
        named = refl;
        headers = λ id row k found is_k. absurd (ground arith);
        absent = λ id free k is_k. refl;
        eventless = λ id free. refl;
        markers = λ key k free is_k. refl;
        undecided = λ id n by k open' is_k. refl;
      };
    },
  )

  office_auth_mirrored :
      (req : Request) (proxy_secret : Option String) (membership : Membership) (h : Headers)
      (s : Store)
      → HasMirror sh s.db
      → HasMirror sh (office_auth req proxy_secret membership h s).1.db
  unfolding office_auth
  office_auth_mirrored req none membership h s m = m
  office_auth_mirrored req (some secret) membership h s (w, m) =
      (w, IsMirrored-same sh (ground arith) (ground arith) (ground arith) m)

  office_set_role_mirrored :
      (req : Request) (me : OfficeIdentity) (account : String) (role : Option String) (s : Store)
      → HasMirror sh s.db
      → HasMirror sh (office_set_role req me account role s).1.db
  unfolding office_set_role transact
  office_set_role_mirrored req me account none s (w, m) =
      (w, IsMirrored-same sh (ground arith) (ground arith) (ground arith) m)
  office_set_role_mirrored req me account (some role) s (w, m) =
      (w, IsMirrored-same sh (ground arith) (ground arith) (ground arith) m)

  office_download_keeps :
      (req : Request) (me : OfficeIdentity) (id : String) (s : Store)
      → (office_download req me id s).1 ≡ s
  unfolding office_download
  office_download_keeps req me id s =
      elim (Option-cases (joined_document id s.db.documents s.db.transactions)) [
        | inl q ↦ ground arith
        | inr (found, q) ↦ elim (Option-cases (lookup found.0.storage_key s.objects)) [
          | inl q2 ↦ ground arith
          | inr (content, q2) ↦ ground arith
        ]
      ]

  route_mirrored :
      (site : Site) (ttd : Option TtdVerifier) (proxy_secret : Option String)
      (membership : Membership)
      → IsSite site
      → IsServing sh
      → (req : Request) (r : Route) (me : OfficeIdentity) (s : Store) → HasMirror sh s.db
      → HasMirror sh (route site ttd proxy_secret membership req r me s).1.db
  unfolding route office_submit office_complete office_cancel
  route_mirrored site ttd proxy_secret membership good serving req (Route.set_role account role) me
        s m =
      office_set_role_mirrored req me account role s m
  route_mirrored site ttd proxy_secret membership good serving req (Route.create form) me s m =
      then_keeps sh (office_create_transaction site req me form) (λ id. pure tt) s
        (office_create_transaction_mirrored sh site req good serving me form s m) (λ a t q m'. m')
  route_mirrored site ttd proxy_secret membership good serving req (Route.submit id) me s m =
      simple_step_mirrored sh site req good serving me id _ _ _ _ s
        (str_eq_ne "VERIFIED" "REVOKED" refl) m
  route_mirrored site ttd proxy_secret membership good serving req (Route.complete id) me s m =
      simple_step_mirrored sh site req good serving me id _ _ _ _ s
        (str_eq_ne "COMMITTED" "REVOKED" refl) m
  route_mirrored site ttd proxy_secret membership good serving req (Route.cancel id) me s m =
      simple_step_mirrored sh site req good serving me id _ _ _ _ s
        (str_eq_ne "CANCELLED" "REVOKED" refl) m
  route_mirrored site ttd proxy_secret membership good serving req (Route.decision id body) me s m =
      office_decision_mirrored sh site ttd req good serving me id body s m
  route_mirrored site ttd proxy_secret membership good serving req (Route.download id) me s m =
      bind_keeps sh (office_download req me id) (λ a. pure tt) s (office_download_keeps req me id s)
        m (λ a. m)

  serve_mirrored :
      (site : Site) (ttd : Option TtdVerifier) (proxy_secret : Option String)
      (membership : Membership)
      → IsSite site
      → IsServing sh
      → (requests : List (Request × Headers × Route)) (s : Store) → HasMirror sh s.db
      → HasMirror sh (serve site ttd proxy_secret membership requests s).db
  unfolding serve handle
  serve_mirrored site ttd proxy_secret membership good serving [] s m = m
  serve_mirrored site ttd proxy_secret membership good serving ((req, headers, r) ∷ requests) s m =
      serve_mirrored site ttd proxy_secret membership good serving requests _ (
        then_keeps sh (office_auth req proxy_secret membership headers)
          (route site ttd proxy_secret membership req r) s
          (office_auth_mirrored req proxy_secret membership headers s m)
          (λ me t q m'. route_mirrored site ttd proxy_secret membership good serving req r me t m'))

  -- Whatever requests the office has served, and however its database failed under them, the chaincode
  -- accepts every queued call, one after the other, from the empty ledger. On the ledger that it then
  -- reaches every request has its header, with the creator, the status, the number of its last event and
  -- that event's payload hash that the database has, and no other request has one.
  pub office_outbox_accepted :
      (site : Site) (ttd : Option TtdVerifier) (proxy_secret : Option String)
      (membership : Membership)
      → IsSite site
      → IsServing sh
      → (requests : List (Request × Headers × Route))
      → let s = serve site ttd proxy_secret membership requests empty_store in
        (w : World sh) × (replay sh s.db.outbox (genesis sh) ≡ (done tt, w))
        × Mirrors sh s.db.transactions s.db.transaction_events w
  office_outbox_accepted site ttd proxy_secret membership good serving requests =
      let (w, m) =
        serve_mirrored site ttd proxy_secret membership good serving requests empty_store
          empty_mirrored in
      (w, m.replayed, m.mirrors)
