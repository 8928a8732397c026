-- ===== src/Office/History.antt =====
-- The office routes as a whole: every request passes officeAuth first, and a history of requests, each
-- with the headers it came with, on one store.
use aplikasi_transaksi_kanto.Base.{Option, String, List, [], ◌∷◌}
use aplikasi_transaksi_kanto.Office.Types.{OfficeIdentity, Store}
use aplikasi_transaksi_kanto.Office.Database.{Tx, pure, ◌>>=◌, ◌>>◌}
use aplikasi_transaksi_kanto.Office.Events.{Site, Request}
use aplikasi_transaksi_kanto.Office.Auth.{Headers, Membership, office_auth, office_set_role}
use aplikasi_transaksi_kanto.Office.Actions.{
  HttpError, office_submit, office_complete, office_cancel,
}
use aplikasi_transaksi_kanto.Office.Create.{Form, office_create_transaction}
use aplikasi_transaksi_kanto.Office.Decision.{TtdVerifier, DecisionRequest, office_decision}
use aplikasi_transaksi_kanto.Office.Documents.{office_download}

-- The routes that officeRoutes registers, less those that only read tables, and the download.
pub data Route : Type 0 where
  set_role : String → Option String → Route
  create : Form → Route
  submit complete cancel : String → Route
  decision : String → Option DecisionRequest → Route
  download : String → Route

module _ (site : Site) (ttd : Option TtdVerifier) (proxy_secret : Option String)
    (membership : Membership) where
  -- The handler that a route names.
  unfoldable pub route : Request → Route → OfficeIdentity → Tx HttpError (Unit {0})
  route req (set_role account role) me = office_set_role req me account role
  route req (create form) me = office_create_transaction site req me form >> pure tt
  route req (submit id) me = office_submit req site me id
  route req (complete id) me = office_complete req site me id
  route req (cancel id) me = office_cancel req site me id
  route req (decision id body) me = office_decision site ttd req me id body
  route req (download id) me = office_download req me id >> pure tt

  unfoldable pub handle : Request → Headers → Route → Tx HttpError (Unit {0})
  handle req headers r = office_auth req proxy_secret membership headers >>= route req r

  -- The store after a history of requests, the oldest first.
  unfoldable pub serve : List (Request × Headers × Route) → Store → Store
  serve [] s = s
  serve ((req, headers, r) ∷ requests) s = serve requests (handle req headers r s).1
