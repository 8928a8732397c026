-- ===== src/Ledger/Asset/Lifecycle.antt =====
-- The lifecycle table of chaincode/asset/chaincode/contract.go.
pub mod Machine
use aplikasi_transaksi_kanto.Base.{Bool, String, List, [], ◌∷◌, str_eq, if◌then◌else◌}
use aplikasi_transaksi_kanto.Ledger.Table.{contains}

-- `allowedLifecycleTransitions`, a map literal; RETIRED and unknown statuses have no entry.
abbrev pub allowed_lifecycle_transitions : String → List String
allowed_lifecycle_transitions current =
    if str_eq current "CREATED"
    then "RECEIVED" ∷ []
    else if str_eq current "RECEIVED"
    then "INSPECTED" ∷ []
    else if str_eq current "INSPECTED"
    then "STORED" ∷ "MAINTENANCE" ∷ []
    else if str_eq current "STORED"
    then "ISSUED" ∷ "MAINTENANCE" ∷ "RETIRED" ∷ []
    else if str_eq current "ISSUED"
    then "TRANSFERRED" ∷ "RETURNED" ∷ []
    else if str_eq current "TRANSFERRED"
    then "RECEIVED" ∷ "MAINTENANCE" ∷ []
    else if str_eq current "MAINTENANCE"
    then "RETURNED" ∷ "STORED" ∷ []
    else if str_eq current "RETURNED"
    then "STORED" ∷ "INSPECTED" ∷ []
    else []

unfoldable pub is_lifecycle_transition_allowed : String → String → Bool
is_lifecycle_transition_allowed current next = contains next (allowed_lifecycle_transitions current)
