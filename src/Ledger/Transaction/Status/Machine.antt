-- ===== src/Ledger/Transaction/Status/Machine.antt =====
-- The status machine as a relation, and that the contract's table decides it.
use aplikasi_transaksi_kanto.Base.{
  ◌≡◌, ◌≢◌, ◌↔◌, ◌⊎◌, [], refl, true, String, arith, str_eq, str_eq_iff, inl, inr, Bool-cases,
}
use aplikasi_transaksi_kanto.Ledger.Transaction.Status.{allowed_transitions, is_transition_allowed}
use aplikasi_transaksi_kanto.Ledger.Table.{IsOneOf, contains-IsOneOf}

-- The contract's table as moves, and revocation from anything but REVOKED.
pub data Move : String → String → Type 0 where
  verify : {s t : String} → s ≡ "DRAFT" → t ≡ "VERIFIED" → Move s t
  cancel_draft : {s t : String} → s ≡ "DRAFT" → t ≡ "CANCELLED" → Move s t
  endorse : {s t : String} → s ≡ "VERIFIED" → t ≡ "ENDORSED" → Move s t
  reject_verified : {s t : String} → s ≡ "VERIFIED" → t ≡ "REJECTED" → Move s t
  cancel_verified : {s t : String} → s ≡ "VERIFIED" → t ≡ "CANCELLED" → Move s t
  commit : {s t : String} → s ≡ "ENDORSED" → t ≡ "COMMITTED" → Move s t
  reject_endorsed : {s t : String} → s ≡ "ENDORSED" → t ≡ "REJECTED" → Move s t
  settle : {s t : String} → s ≡ "COMMITTED" → t ≡ "SETTLED" → Move s t
  reject_committed : {s t : String} → s ≡ "COMMITTED" → t ≡ "REJECTED" → Move s t
  supersede : {s t : String} → s ≡ "SETTLED" → t ≡ "SUPERSEDED" → Move s t
  revoke : {s t : String} → s ≢ "REVOKED" → t ≡ "REVOKED" → Move s t

-- Every move is allowed.
Move-allowed : {s t : String} → Move s t → is_transition_allowed s t ≡ true
unfolding is_transition_allowed
Move-allowed (verify p q) = rw (p, q)
Move-allowed (cancel_draft p q) = rw (p, q)
Move-allowed (endorse p q) = rw (p, q)
Move-allowed (reject_verified p q) = rw (p, q)
Move-allowed (cancel_verified p q) = rw (p, q)
Move-allowed (commit p q) = rw (p, q)
Move-allowed (reject_endorsed p q) = rw (p, q)
Move-allowed (settle p q) = rw (p, q)
Move-allowed (reject_committed p q) = rw (p, q)
Move-allowed (supersede p q) = rw (p, q)
Move-allowed (revoke {s} n q) = rw q (ground (arith, str_eq_iff s "REVOKED"))

-- A successor in the table is the end of a move.
from_table : (s t : String) → IsOneOf t (allowed_transitions s) → Move s t
from_table s t h = elim (Bool-cases (str_eq s "DRAFT")) [
  | inl e ↦
      let from : s ≡ "DRAFT" = (str_eq_iff s _).0 e in
      elim (rw e at h) [
        | inl q ↦ verify from q
        | inr (inl q) ↦ cancel_draft from q
        | inr (inr impossible) ↦ absurd impossible
      ]
  | inr n0 ↦ elim (Bool-cases (str_eq s "VERIFIED")) [
    | inl e ↦
        let from : s ≡ "VERIFIED" = (str_eq_iff s _).0 e in
        elim (rw (n0, e) at h) [
          | inl q ↦ endorse from q
          | inr (inl q) ↦ reject_verified from q
          | inr (inr (inl q)) ↦ cancel_verified from q
          | inr (inr (inr impossible)) ↦ absurd impossible
        ]
    | inr n1 ↦ elim (Bool-cases (str_eq s "ENDORSED")) [
      | inl e ↦
          let from : s ≡ "ENDORSED" = (str_eq_iff s _).0 e in
          elim (rw (n0, n1, e) at h) [
            | inl q ↦ commit from q
            | inr (inl q) ↦ reject_endorsed from q
            | inr (inr impossible) ↦ absurd impossible
          ]
      | inr n2 ↦ elim (Bool-cases (str_eq s "COMMITTED")) [
        | inl e ↦
            let from : s ≡ "COMMITTED" = (str_eq_iff s _).0 e in
            elim (rw (n0, n1, n2, e) at h) [
              | inl q ↦ settle from q
              | inr (inl q) ↦ reject_committed from q
              | inr (inr impossible) ↦ absurd impossible
            ]
        | inr n3 ↦ elim (Bool-cases (str_eq s "SETTLED")) [
          | inl e ↦
              let from : s ≡ "SETTLED" = (str_eq_iff s _).0 e in
              elim (rw (n0, n1, n2, n3, e) at h) [
                | inl q ↦ supersede from q
                | inr impossible ↦ absurd impossible
              ]
          | inr n4 ↦ absurd (rw (n0, n1, n2, n3, n4) at h)
        ]
      ]
    ]
  ]
]

allowed-Move : (s t : String) → is_transition_allowed s t ≡ true → Move s t
unfolding is_transition_allowed
allowed-Move s t h = elim (Bool-cases (str_eq t "REVOKED")) [
  | inl to_revoked ↦ revoke (ground (arith, str_eq_iff s "REVOKED")) ((str_eq_iff t _).0 to_revoked)
  | inr other ↦ from_table s t (contains-IsOneOf t (allowed_transitions s) (rw other at h))
]

-- The contract allows exactly these moves.
pub is_transition_allowed-iff-Move : (s t : String) → (is_transition_allowed s t ≡ true) ↔ Move s t
is_transition_allowed-iff-Move s t = (allowed-Move s t, Move-allowed)

-- A status that the table has no successor for.
abbrev pub IsClosed : String → Type 0
IsClosed s = (s ≡ "CANCELLED") ⊎ (s ≡ "REJECTED") ⊎ (s ≡ "SUPERSEDED")

from_closed :
    (s t x : String)
    → s ≡ x
    → allowed_transitions x ≡ []
    → is_transition_allowed s t ≡ true
    → t ≡ "REVOKED"
unfolding is_transition_allowed
from_closed s t x e no_successor h = elim (Bool-cases (str_eq t "REVOKED")) [
  | inl to_revoked ↦ (str_eq_iff t _).0 to_revoked
  | inr other ↦
      absurd (rw (e, no_successor) at (contains-IsOneOf t (allowed_transitions s) (rw other at h)))
]

-- Nothing but REVOKED follows a closed status.
pub only_revoked : {s t : String} → IsClosed s → Move s t → t ≡ "REVOKED"
only_revoked {s} {t} (inl e) mv = from_closed s t _ e refl (Move-allowed mv)
only_revoked {s} {t} (inr (inl e)) mv = from_closed s t _ e refl (Move-allowed mv)
only_revoked {s} {t} (inr (inr e)) mv = from_closed s t _ e refl (Move-allowed mv)
