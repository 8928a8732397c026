-- ===== src/Ledger/Stub/Peer.antt =====
-- A peer to run the contracts on: a key is its object type with its attributes, and every read and
-- write succeeds.
use aplikasi_transaksi_kanto.Base.{
  ◌≡◌, ◌↔◌, Bool, true, false, some, String, List, [], ◌∷◌, ◌&&◌, str_eq, str_eq_iff, arith,
}
use aplikasi_transaksi_kanto.Ledger.Stub.Keys.{Shim}

abbrev same_list : List String → List String → Bool
same_list [] [] = true
same_list (x ∷ xs) (y ∷ ys) = str_eq x y && same_list xs ys
same_list _ _ = false

same_list_iff : (xs ys : List String) → (same_list xs ys ≡ true) ↔ (xs ≡ ys)
same_list_iff [] [] = ground arith
same_list_iff [] (y ∷ ys) = ground arith
same_list_iff (x ∷ xs) [] = ground arith
same_list_iff (x ∷ xs) (y ∷ ys) = ground (arith, str_eq_iff x y, same_list_iff xs ys)

abbrev same_pair : String × List String → String × List String → Bool
same_pair a b = str_eq a.0 b.0 && same_list a.1 b.1

pub same_pair_iff : (a b : String × List String) → (same_pair a b ≡ true) ↔ (a ≡ b)
same_pair_iff a b = ground (arith, str_eq_iff a.0 b.0, same_list_iff a.1 b.1)

abbrev pub peer : Shim
peer = record {
  Key = String × List String;
  same_key = same_pair;
  same_key_iff = same_pair_iff;
  create_composite_key = λ t xs. some (t, xs);
  composite_injective = λ t u xs ys k p q. (cc, cc);
  reads = λ _. true;
  writes = λ _. true;
}
