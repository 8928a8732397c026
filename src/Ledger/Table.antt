-- ===== src/Ledger/Table.antt =====
-- The loop `for _, allowed := range table[current]` that both contracts end their checks with.
use aplikasi_transaksi_kanto.Base.{
  ◌≡◌, ◌⊎◌, inl, inr, Bool, true, false, ◌||◌, String, List, [], ◌∷◌, str_eq, str_eq_iff,
  Bool-cases, sym,
}

abbrev pub contains : String → List String → Bool
contains next [] = false
contains next (allowed ∷ rest) = str_eq allowed next || contains next rest

abbrev pub IsOneOf : String → List String → Type 0
IsOneOf t [] = ⊥
IsOneOf t (x ∷ xs) = (t ≡ x) ⊎ IsOneOf t xs

pub contains-IsOneOf : (t : String) (xs : List String) → contains t xs ≡ true → IsOneOf t xs
contains-IsOneOf t [] h = cc
contains-IsOneOf t (x ∷ xs) h = elim (Bool-cases (str_eq x t)) [
  | inl same ↦ inl (sym ((str_eq_iff x t).0 same))
  | inr other ↦ inr (contains-IsOneOf t xs (rw other at h))
]
