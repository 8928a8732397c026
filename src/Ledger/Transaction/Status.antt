-- ===== src/Ledger/Transaction/Status.antt =====
-- The status machine of chaincode/transaction/chaincode/contract.go.
pub mod Machine
use aplikasi_transaksi_kanto.Base.{
  Bool, true, false, not, String, List, [], ◌∷◌, str_eq, if◌then◌else◌,
}
use aplikasi_transaksi_kanto.Ledger.Table.{contains}

-- `allowedTransitions`, a map literal; a status with no entry has no successors.
abbrev pub allowed_transitions : String → List String
allowed_transitions current =
    if str_eq current "DRAFT"
    then "VERIFIED" ∷ "CANCELLED" ∷ []
    else if str_eq current "VERIFIED"
    then "ENDORSED" ∷ "REJECTED" ∷ "CANCELLED" ∷ []
    else if str_eq current "ENDORSED"
    then "COMMITTED" ∷ "REJECTED" ∷ []
    else if str_eq current "COMMITTED"
    then "SETTLED" ∷ "REJECTED" ∷ []
    else if str_eq current "SETTLED"
    then "SUPERSEDED" ∷ []
    else []

unfoldable pub is_transition_allowed : String → String → Bool
is_transition_allowed current next =
    if str_eq next "REVOKED"
    then not (str_eq current "REVOKED")
    else contains next (allowed_transitions current)
