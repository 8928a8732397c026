-- ===== src/Store/Accounts/Tests.antt =====
-- Runs of the account methods on a small store.
use aplikasi_transaksi_kanto.Base.{◌≡◌, ◌≢◌, ◌↔◌, refl, [], ◌∷◌}
use aplikasi_transaksi_kanto.Store.Dict.{lookup, insert}
use aplikasi_transaksi_kanto.Store.Types.{Account, Memory, ok, err, not_found, new_memory}
use aplikasi_transaksi_kanto.Store.Accounts.{completed, create_account, account_by_email, account}
use aplikasi_transaksi_kanto.Store.Accounts.Index.{
  IsIndexed, new_memory-IsIndexed, create_account-IsIndexed, start, register,
  account_by_email_finds,
}

abbrev ana : Account
ana = record {
  id = "";
  email = "ana@x";
  display_name = "Ana";
  full_name = "Ana";
  organization = "org";
  position = "";
  nip = "";
  password_hash = "hash";
  role = "";
  status = "";
  created_at = 0;
}

abbrev budi : Account
budi = record ana { email = "budi@x" }

abbrev one : Memory
one = record new_memory {
  accounts = ("a1", completed "a1" 5 ana) ∷ [];
  by_email = ("ana@x", "a1") ∷ [];
}

one-IsIndexed : IsIndexed one
unfolding create_account lookup insert
one-IsIndexed = create_account-IsIndexed new_memory-IsIndexed "a1" 5 ana refl

create_account-IsIndexed_example : IsIndexed (create_account "a2" 6 budi one).1
unfolding lookup
create_account-IsIndexed_example = create_account-IsIndexed one-IsIndexed "a2" 6 budi refl

account_by_email_finds_example :
    ((a : Account)
      → (account_by_email "ana@x" (create_account "a1" 5 ana new_memory).1 ≡ ok a)
        ↔ ((a.email ≡ "ana@x") × (account a.id (create_account "a1" 5 ana new_memory).1 ≡ ok a)))
    × ((account_by_email "ana@x" (create_account "a1" 5 ana new_memory).1 ≡ err not_found) ↔ (
        (a : Account)
        → account a.id (create_account "a1" 5 ana new_memory).1 ≡ ok a
        → a.email ≢ "ana@x"))
unfolding lookup
account_by_email_finds_example = account_by_email_finds (register "a1" 5 ana refl start) "ana@x"
