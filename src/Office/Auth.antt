-- ===== src/Office/Auth.antt =====
-- api/internal/httpapi/office_auth.go, and the handlers of roles in office.go. A header is given as
-- strings.TrimSpace leaves it.
use Prim.Native.String.{len}
use aplikasi_transaksi_kanto.Base.{
  ltb, ◌&&◌, ◌||◌, not, Option, none, some, String, str_eq, if◌then◌else◌,
}
use aplikasi_transaksi_kanto.Store.Dict.{lookup, insert}
use aplikasi_transaksi_kanto.Office.Types.{OfficeIdentity, Database}
use aplikasi_transaksi_kanto.Office.Database.{
  Tx, pure, ◌>>=◌, ◌>>◌, require, or_fail, read, write, transact,
}
use aplikasi_transaksi_kanto.Office.Events.{Request}
use aplikasi_transaksi_kanto.Office.Roles.{is_admin, valid_office_role, role_requester}
use aplikasi_transaksi_kanto.Office.Actions.{HttpError, refused, internal_error}

-- The headers that the proxy sets.
pub record Headers : Type 0 where
  pub secret : String
  pub account : String
  pub email : String
  pub name : String
  pub role : String

-- `if err == nil && validOfficeRoles[role]`
abbrev pub effective_role : Option String → String
effective_role none = role_requester
effective_role (some role) = if valid_office_role role then role else role_requester

abbrev unauthorized : HttpError
unauthorized = refused 401 "unauthorized"

-- The office of an account, if the central admin has set one: the id and the name.
abbrev pub Membership : Type 0
Membership = String → Option (String × String)

abbrev identity_of : Headers → String → Option (String × String) → OfficeIdentity
identity_of h office_role office = record {
  id = h.account;
  email = h.email;
  name = if str_eq h.name "" then h.email else h.name;
  ttd_role = h.role;
  office_role = office_role;
  org_id = elim office [ none ↦ "" | some o ↦ o.0 ];
  org_name = elim office [ none ↦ "" | some o ↦ o.1 ];
}

-- An identity row that is there keeps its role.
abbrev pub provision : String → Database → Database
provision id db = record db {
  identities = elim (lookup id db.identities) [
    | some role ↦ insert id role db.identities
    | none ↦ insert id role_requester db.identities
  ];
}

module _ (req : Request) where
  -- officeAuth, up to the next handler: the identity it is given. `proxy_secret` is `s.Office`.
  unfoldable pub office_auth : Option String → Membership → Headers → Tx HttpError OfficeIdentity
  office_auth proxy_secret membership h = do
    secret ← or_fail proxy_secret unauthorized
    require (not (str_eq secret "" || not (str_eq h.secret secret))) unauthorized
    require (not (str_eq h.account "")) unauthorized
    require (req.up "provision identity") internal_error
    write (provision h.account)
    db ← read
    let role = if req.up "select role" then lookup h.account db.office_roles else none
    pure (identity_of h (effective_role role) (membership h.account))

  abbrev pub set_role : String → String → Database → Database
  set_role account role db = record db {
    identities = insert account role db.identities;
    office_roles = insert account role db.office_roles;
  }

  -- officeSetRole; no role is a body that does not decode.
  unfoldable pub office_set_role : OfficeIdentity → String → Option String → Tx HttpError (Unit {0})
  office_set_role me account body = do
    require (is_admin me) (refused 403 "hanya admin")
    role ← or_fail body (refused 400 "role harus requester, approver, atau auditor")
    require (valid_office_role role) (refused 400 "role harus requester, approver, atau auditor")
    require (not (str_eq account "" || ltb 100 (len account)))
        (refused 400 "account_id tidak valid")
    transact (req.up "begin") (req.up "commit") internal_error (do
      require (req.up "set identity role" && req.up "set role") internal_error
      write (set_role account role))
