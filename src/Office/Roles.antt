-- ===== src/Office/Roles.antt =====
-- api/internal/httpapi/office.go and office_auth.go: the constants, the table of moves, and who may
-- do what.
use aplikasi_transaksi_kanto.Base.{
  Bool, ◌&&◌, ◌||◌, not, String, List, [], ◌∷◌, str_eq, if◌then◌else◌,
}
use aplikasi_transaksi_kanto.Ledger.Table.{contains}
use aplikasi_transaksi_kanto.Office.Types.{OfficeIdentity}

abbrev pub office_workflow : String
office_workflow = "pengajuan-kantor"

abbrev pub office_schema : String
office_schema = "1"

abbrev pub office_policy : String
office_policy = "policy-v1"

abbrev pub office_org : String
office_org = "org-a"

abbrev pub role_requester : String
role_requester = "requester"

abbrev pub role_approver : String
role_approver = "approver"

abbrev pub role_auditor : String
role_auditor = "auditor"

-- `validOfficeRoles[role]`
abbrev pub valid_office_role : String → Bool
valid_office_role role = contains role (role_requester ∷ role_approver ∷ role_auditor ∷ [])

-- `officeCategories[category]`
abbrev pub office_category : String → Bool
office_category c = contains c ("pengadaan" ∷ "perjalanan-dinas" ∷ "reimbursement" ∷ "lainnya" ∷ [])

-- `officeTransitions[cur]`
unfoldable pub office_transitions : String → List String
office_transitions cur =
    if str_eq cur "DRAFT"
    then "VERIFIED" ∷ "CANCELLED" ∷ []
    else if str_eq cur "VERIFIED"
    then "ENDORSED" ∷ "REJECTED" ∷ "CANCELLED" ∷ []
    else if str_eq cur "ENDORSED"
    then "COMMITTED" ∷ "REJECTED" ∷ []
    else if str_eq cur "COMMITTED"
    then "SETTLED" ∷ "REJECTED" ∷ []
    else if str_eq cur "SETTLED"
    then "SUPERSEDED" ∷ []
    else []

unfoldable pub can_transition : String → String → Bool
can_transition cur next = contains next (office_transitions cur)

-- isAdmin
abbrev pub is_admin : OfficeIdentity → Bool
is_admin i = str_eq i.ttd_role "admin" || str_eq i.ttd_role "superadmin"

-- canSeeAll
abbrev pub can_see_all : OfficeIdentity → Bool
can_see_all i =
    is_admin i || str_eq i.office_role role_approver || str_eq i.office_role role_auditor

-- officePerms
pub record OfficePerms : Type 0 where
  pub can_submit : Bool
  pub can_cancel : Bool
  pub can_approve : Bool
  pub can_reject : Bool
  pub can_complete : Bool

unfoldable pub perms_for : OfficeIdentity → String → String → OfficePerms
perms_for id created_by status =
    let creator = str_eq id.id created_by in
    let approver = str_eq id.office_role role_approver && not creator && str_eq status "VERIFIED" in
    record {
      can_submit = creator && str_eq status "DRAFT";
      can_cancel = creator && (str_eq status "DRAFT" || str_eq status "VERIFIED");
      can_approve = approver;
      can_reject = approver;
      can_complete = (creator || is_admin id) && str_eq status "ENDORSED";
    }
