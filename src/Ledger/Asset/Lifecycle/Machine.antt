-- ===== src/Ledger/Asset/Lifecycle/Machine.antt =====
-- The lifecycle as a relation, and that the contract's table decides it.
use aplikasi_transaksi_kanto.Base.{
  ◌≡◌, ◌∙◌, ◌↔◌, refl, sym, true, false, String, str_eq, str_eq_iff, str_eq_ne, inl, inr,
  Bool-cases,
}
use aplikasi_transaksi_kanto.Ledger.Asset.Lifecycle.{
  allowed_lifecycle_transitions, is_lifecycle_transition_allowed,
}
use aplikasi_transaksi_kanto.Ledger.Table.{IsOneOf, contains-IsOneOf}

-- The edges of the contract's custody graph. PRD §5.2's line has one more, from RETURNED to RETIRED.
pub data Move : String → String → Type 0 where
  receive : {s t : String} → s ≡ "CREATED" → t ≡ "RECEIVED" → Move s t
  inspect : {s t : String} → s ≡ "RECEIVED" → t ≡ "INSPECTED" → Move s t
  store : {s t : String} → s ≡ "INSPECTED" → t ≡ "STORED" → Move s t
  repair_inspected : {s t : String} → s ≡ "INSPECTED" → t ≡ "MAINTENANCE" → Move s t
  issue : {s t : String} → s ≡ "STORED" → t ≡ "ISSUED" → Move s t
  repair_stored : {s t : String} → s ≡ "STORED" → t ≡ "MAINTENANCE" → Move s t
  retire : {s t : String} → s ≡ "STORED" → t ≡ "RETIRED" → Move s t
  transfer : {s t : String} → s ≡ "ISSUED" → t ≡ "TRANSFERRED" → Move s t
  return_issued : {s t : String} → s ≡ "ISSUED" → t ≡ "RETURNED" → Move s t
  receive_again : {s t : String} → s ≡ "TRANSFERRED" → t ≡ "RECEIVED" → Move s t
  repair_transferred : {s t : String} → s ≡ "TRANSFERRED" → t ≡ "MAINTENANCE" → Move s t
  return_repaired : {s t : String} → s ≡ "MAINTENANCE" → t ≡ "RETURNED" → Move s t
  store_repaired : {s t : String} → s ≡ "MAINTENANCE" → t ≡ "STORED" → Move s t
  store_returned : {s t : String} → s ≡ "RETURNED" → t ≡ "STORED" → Move s t
  inspect_again : {s t : String} → s ≡ "RETURNED" → t ≡ "INSPECTED" → Move s t

Move-allowed : {s t : String} → Move s t → is_lifecycle_transition_allowed s t ≡ true
unfolding is_lifecycle_transition_allowed
Move-allowed (receive p q) = rw (p, q)
Move-allowed (inspect p q) = rw (p, q)
Move-allowed (store p q) = rw (p, q)
Move-allowed (repair_inspected p q) = rw (p, q)
Move-allowed (issue p q) = rw (p, q)
Move-allowed (repair_stored p q) = rw (p, q)
Move-allowed (retire p q) = rw (p, q)
Move-allowed (transfer p q) = rw (p, q)
Move-allowed (return_issued p q) = rw (p, q)
Move-allowed (receive_again p q) = rw (p, q)
Move-allowed (repair_transferred p q) = rw (p, q)
Move-allowed (return_repaired p q) = rw (p, q)
Move-allowed (store_repaired p q) = rw (p, q)
Move-allowed (store_returned p q) = rw (p, q)
Move-allowed (inspect_again p q) = rw (p, q)

-- A successor in the table is the end of a move.
from_table : (s t : String) → IsOneOf t (allowed_lifecycle_transitions s) → Move s t
from_table s t h = elim (Bool-cases (str_eq s "CREATED")) [
  | inl e ↦
      let from : s ≡ "CREATED" = (str_eq_iff s _).0 e in
      elim (rw e at h) [ inl q ↦ receive from q | inr impossible ↦ absurd impossible ]
  | inr n0 ↦ elim (Bool-cases (str_eq s "RECEIVED")) [
    | inl e ↦
        let from : s ≡ "RECEIVED" = (str_eq_iff s _).0 e in
        elim (rw (n0, e) at h) [ inl q ↦ inspect from q | inr impossible ↦ absurd impossible ]
    | inr n1 ↦ elim (Bool-cases (str_eq s "INSPECTED")) [
      | inl e ↦
          let from : s ≡ "INSPECTED" = (str_eq_iff s _).0 e in
          elim (rw (n0, n1, e) at h) [
            | inl q ↦ store from q
            | inr (inl q) ↦ repair_inspected from q
            | inr (inr impossible) ↦ absurd impossible
          ]
      | inr n2 ↦ elim (Bool-cases (str_eq s "STORED")) [
        | inl e ↦
            let from : s ≡ "STORED" = (str_eq_iff s _).0 e in
            elim (rw (n0, n1, n2, e) at h) [
              | inl q ↦ issue from q
              | inr (inl q) ↦ repair_stored from q
              | inr (inr (inl q)) ↦ retire from q
              | inr (inr (inr impossible)) ↦ absurd impossible
            ]
        | inr n3 ↦ elim (Bool-cases (str_eq s "ISSUED")) [
          | inl e ↦
              let from : s ≡ "ISSUED" = (str_eq_iff s _).0 e in
              elim (rw (n0, n1, n2, n3, e) at h) [
                | inl q ↦ transfer from q
                | inr (inl q) ↦ return_issued from q
                | inr (inr impossible) ↦ absurd impossible
              ]
          | inr n4 ↦ elim (Bool-cases (str_eq s "TRANSFERRED")) [
            | inl e ↦
                let from : s ≡ "TRANSFERRED" = (str_eq_iff s _).0 e in
                elim (rw (n0, n1, n2, n3, n4, e) at h) [
                  | inl q ↦ receive_again from q
                  | inr (inl q) ↦ repair_transferred from q
                  | inr (inr impossible) ↦ absurd impossible
                ]
            | inr n5 ↦ elim (Bool-cases (str_eq s "MAINTENANCE")) [
              | inl e ↦
                  let from : s ≡ "MAINTENANCE" = (str_eq_iff s _).0 e in
                  elim (rw (n0, n1, n2, n3, n4, n5, e) at h) [
                    | inl q ↦ return_repaired from q
                    | inr (inl q) ↦ store_repaired from q
                    | inr (inr impossible) ↦ absurd impossible
                  ]
              | inr n6 ↦ elim (Bool-cases (str_eq s "RETURNED")) [
                | inl e ↦
                    let from : s ≡ "RETURNED" = (str_eq_iff s _).0 e in
                    elim (rw (n0, n1, n2, n3, n4, n5, n6, e) at h) [
                      | inl q ↦ store_returned from q
                      | inr (inl q) ↦ inspect_again from q
                      | inr (inr impossible) ↦ absurd impossible
                    ]
                | inr n7 ↦ absurd (rw (n0, n1, n2, n3, n4, n5, n6, n7) at h)
              ]
            ]
          ]
        ]
      ]
    ]
  ]
]

allowed-Move : (s t : String) → is_lifecycle_transition_allowed s t ≡ true → Move s t
unfolding is_lifecycle_transition_allowed
allowed-Move s t h = from_table s t (contains-IsOneOf t (allowed_lifecycle_transitions s) h)

-- The contract allows exactly these moves.
pub is_lifecycle_transition_allowed-iff-Move :
    (s t : String) → (is_lifecycle_transition_allowed s t ≡ true) ↔ Move s t
is_lifecycle_transition_allowed-iff-Move s t = (allowed-Move s t, Move-allowed)

-- No move starts at RETIRED.
pub retired_stuck : {a b : String} → Move a b → a ≡ "RETIRED" → ⊥
retired_stuck {a} mv r = from mv
  where
    no_text : (x : String) → str_eq x "RETIRED" ≡ false → a ≡ x → ⊥
    no_text x n q = str_eq_ne x "RETIRED" n (sym q ∙ r)

    from : {b : String} → Move a b → ⊥
    from (receive p _) = no_text "CREATED" refl p
    from (inspect p _) = no_text "RECEIVED" refl p
    from (store p _) = no_text "INSPECTED" refl p
    from (repair_inspected p _) = no_text "INSPECTED" refl p
    from (issue p _) = no_text "STORED" refl p
    from (repair_stored p _) = no_text "STORED" refl p
    from (retire p _) = no_text "STORED" refl p
    from (transfer p _) = no_text "ISSUED" refl p
    from (return_issued p _) = no_text "ISSUED" refl p
    from (receive_again p _) = no_text "TRANSFERRED" refl p
    from (repair_transferred p _) = no_text "TRANSFERRED" refl p
    from (return_repaired p _) = no_text "MAINTENANCE" refl p
    from (store_repaired p _) = no_text "MAINTENANCE" refl p
    from (store_returned p _) = no_text "RETURNED" refl p
    from (inspect_again p _) = no_text "RETURNED" refl p

-- The one move to RETIRED starts at STORED.
pub retired_from : {a b : String} → Move a b → b ≡ "RETIRED" → a ≡ "STORED"
retired_from {a} {b} mv r = from mv
  where
    no_text : (x : String) → str_eq x "RETIRED" ≡ false → b ≡ x → a ≡ "STORED"
    no_text x n q = absurd (str_eq_ne x "RETIRED" n (sym q ∙ r))

    from : Move a b → a ≡ "STORED"
    from (receive _ q) = no_text "RECEIVED" refl q
    from (inspect _ q) = no_text "INSPECTED" refl q
    from (store _ q) = no_text "STORED" refl q
    from (repair_inspected _ q) = no_text "MAINTENANCE" refl q
    from (issue _ q) = no_text "ISSUED" refl q
    from (repair_stored _ q) = no_text "MAINTENANCE" refl q
    from (retire p _) = p
    from (transfer _ q) = no_text "TRANSFERRED" refl q
    from (return_issued _ q) = no_text "RETURNED" refl q
    from (receive_again _ q) = no_text "RECEIVED" refl q
    from (repair_transferred _ q) = no_text "MAINTENANCE" refl q
    from (return_repaired _ q) = no_text "RETURNED" refl q
    from (store_repaired _ q) = no_text "STORED" refl q
    from (store_returned _ q) = no_text "STORED" refl q
    from (inspect_again _ q) = no_text "INSPECTED" refl q
