-- ===== src/Store/Accounts/Index.antt =====
-- The e-mail index of the store stays in step with the accounts.
use aplikasi_transaksi_kanto.Base.{
  ◌≡◌, ◌≢◌, ◌↔◌, refl, sym, ap, ◌∙◌, none, some, String, ℕ, str_eq, str_eq_iff, Bool-cases,
  Option-cases, inl, inr, str_eq_ne,
}
use aplikasi_transaksi_kanto.Store.Dict.{
  lookup, insert, erase, lookup-insert_self, lookup-insert_ne, lookup-erase_self, lookup-erase_ne,
}
use aplikasi_transaksi_kanto.Store.Types.{
  Account, Memory, ok, err, not_found, email_taken, new_memory,
}
use aplikasi_transaksi_kanto.Store.Accounts.{
  completed, create_account, change_account, set_account_status, update_account_profile,
  set_account_password, delete_account, account_by_email, account,
}

-- Every index entry leads to an account with that e-mail address, and every account is stored under
-- its own id and is the one that the index gives for its address.
pub record IsIndexed (m : Memory) : Type 0 where
  pub entry :
      (e id : String)
      → lookup e m.by_email ≡ some id
      → (a : Account) × (lookup id m.accounts ≡ some a) × (a.email ≡ e)
  pub indexed :
      (id : String) (a : Account)
      → lookup id m.accounts ≡ some a
      → (a.id ≡ id) × (lookup a.email m.by_email ≡ some id)

pub new_memory-IsIndexed : IsIndexed new_memory
unfolding lookup
new_memory-IsIndexed = record { entry = λ e id h. cc; indexed = λ id a h. cc }

module _ {m : Memory} (inv : IsIndexed m) where
  -- A change of an account that keeps its id and address.
  change-IsIndexed :
      (id : String) (a b : Account)
      → lookup id m.accounts ≡ some a
      → b.id ≡ a.id
      → b.email ≡ a.email
      → IsIndexed (record m { accounts = insert id b m.accounts })
  change-IsIndexed id a b found same_id same_email = record {
    entry = λ e j h.
        let (x, at_j, mail) = inv.entry e j h in
        elim (Bool-cases (str_eq id j)) [
          | inl same ↦
              let p : id ≡ j = (str_eq_iff id j).0 same in
              (b, cc (lookup-insert_self id b m.accounts), cc)
          | inr other ↦ (x, lookup-insert_ne id j b m.accounts (str_eq_ne id j other) ∙ at_j, mail)
        ];
    indexed = λ j x h. elim (Bool-cases (str_eq id j)) [
      | inl same ↦
          let p : id ≡ j = (str_eq_iff id j).0 same in
          let q : x ≡ b = cc (lookup-insert_self id b m.accounts) in
          let (own, at_mail) = inv.indexed id a found in (cc, cc)
      | inr other ↦
          inv.indexed j x (sym (lookup-insert_ne id j b m.accounts (str_eq_ne id j other)) ∙ h)
    ];
  }

  -- A write of a new account under a free id and a free address.
  insert-IsIndexed :
      (a : Account)
      → lookup a.id m.accounts ≡ none
      → lookup a.email m.by_email ≡ none
      → IsIndexed (record m {
        accounts = insert a.id a m.accounts;
        by_email = insert a.email a.id m.by_email;
      })
  insert-IsIndexed a free_id free_mail = record {
    entry = λ e j h. elim (Bool-cases (str_eq a.email e)) [
      | inl same ↦
          let p : a.email ≡ e = (str_eq_iff a.email e).0 same in
          (
            a,
            cc (lookup-insert_self a.email a.id m.by_email, lookup-insert_self a.id a m.accounts),
            p,
          )
      | inr other ↦
          let ne = str_eq_ne a.email e other in
          let (x, at_j, mail) =
            inv.entry e j (sym (lookup-insert_ne a.email e a.id m.by_email ne) ∙ h) in
          let differs : a.id ≢ j = λ q. cc in
          (x, lookup-insert_ne a.id j a m.accounts differs ∙ at_j, mail)
    ];
    indexed = λ j x h. elim (Bool-cases (str_eq a.id j)) [
      | inl same ↦
          let p : a.id ≡ j = (str_eq_iff a.id j).0 same in
          let q : x ≡ a = cc (lookup-insert_self a.id a m.accounts) in
          (cc, cc (lookup-insert_self a.email a.id m.by_email))
      | inr other ↦
          let ne = str_eq_ne a.id j other in
          let (own, at_mail) =
            inv.indexed j x (sym (lookup-insert_ne a.id j a m.accounts ne) ∙ h) in
          let differs : a.email ≢ x.email = λ q. cc in
          (own, lookup-insert_ne a.email x.email a.id m.by_email differs ∙ at_mail)
    ];
  }

  erase-IsIndexed :
      (id : String) (a : Account)
      → lookup id m.accounts ≡ some a
      → IsIndexed (record m { accounts = erase id m.accounts; by_email = erase a.email m.by_email })
  erase-IsIndexed id a found = record {
    entry = λ e j h. elim (Bool-cases (str_eq a.email e)) [
      | inl same ↦
          let p : a.email ≡ e = (str_eq_iff a.email e).0 same in
          absurd (cc (lookup-erase_self a.email m.by_email))
      | inr other ↦
          let ne = str_eq_ne a.email e other in
          let (x, at_j, mail) = inv.entry e j (sym (lookup-erase_ne a.email e m.by_email ne) ∙ h) in
          let differs : id ≢ j = λ q. let same : x ≡ a = cc in ne (cc) in
          (x, lookup-erase_ne id j m.accounts differs ∙ at_j, mail)
    ];
    indexed = λ j x h. elim (Bool-cases (str_eq id j)) [
      | inl same ↦
          let p : id ≡ j = (str_eq_iff id j).0 same in absurd (cc (lookup-erase_self id m.accounts))
      | inr other ↦
          let ne = str_eq_ne id j other in
          let (own, at_mail) = inv.indexed j x (sym (lookup-erase_ne id j m.accounts ne) ∙ h) in
          let (_, at_a) = inv.indexed id a found in
          let differs : a.email ≢ x.email = λ q. ne (cc) in
          (own, lookup-erase_ne a.email x.email m.by_email differs ∙ at_mail)
    ];
  }

  change_account-IsIndexed :
      (id : String) (f : Account → Account)
      → ((a : Account) → ((f a).id ≡ a.id) × ((f a).email ≡ a.email))
      → IsIndexed (change_account id f m (lookup id m.accounts)).1
  change_account-IsIndexed id f keeps = elim (Option-cases (lookup id m.accounts)) [
    | inl missing ↦ rw missing inv
    | inr (a, at_id) ↦ rw at_id (change-IsIndexed id a (f a) at_id (keeps a).0 (keeps a).1)
  ]

  -- CreateAccount keeps the index in step, on both branches, if the id that the account gets is not
  -- in use.
  pub create_account-IsIndexed :
      (fresh : String) (now : ℕ) (a : Account)
      → lookup (completed fresh now a).id m.accounts ≡ none
      → IsIndexed (create_account fresh now a m).1
  unfolding create_account
  create_account-IsIndexed fresh now a free = elim (Option-cases (lookup a.email m.by_email)) [
    | inl free_mail ↦
        rw (free_mail, create_account) (insert-IsIndexed (completed fresh now a) free free_mail)
    | inr (id, taken) ↦ rw (taken, create_account) inv
  ]

  -- SetAccountStatus, UpdateAccountProfile, SetAccountPassword and DeleteAccount keep the index in
  -- step, whether they find the account or not.
  pub account_changes-IsIndexed :
      (id status full_name org password_hash : String)
      → IsIndexed (set_account_status id status m).1
        × IsIndexed (update_account_profile id full_name org m).1
        × IsIndexed (set_account_password id password_hash m).1
        × IsIndexed (delete_account id m).1
  unfolding set_account_status update_account_profile set_account_password delete_account
  account_changes-IsIndexed id status full_name org password_hash = (
    change_account-IsIndexed id (λ a. record a { status = status }) (λ a. (refl, refl)),
    change_account-IsIndexed id (λ a. record a { full_name = full_name; organization = org })
        (λ a. (refl, refl)),
    change_account-IsIndexed id (λ a. record a { password_hash = password_hash })
        (λ a. (refl, refl)),
    elim (Option-cases (lookup id m.accounts)) [
      | inl missing ↦ rw (missing, delete_account) inv
      | inr (a, at_id) ↦ rw (at_id, delete_account) (erase-IsIndexed id a at_id)
    ],
  )

  -- The account that the index leads to is the one that has the address.
  by_email_found :
      (email : String) (a : Account)
      → (account_by_email email m ≡ ok a) ↔ ((a.email ≡ email) × (account a.id m ≡ ok a))
  unfolding account account_by_email
  by_email_found email a = (
    (λ h. elim (Option-cases (lookup email m.by_email)) [
      | inl missing ↦ cc (rw (missing, account_by_email) at h)
      | inr (id, at_mail) ↦
          let (x, at_id, mail) = inv.entry email id at_mail in
          let (own, _) = inv.indexed id x at_id in
          let same : x ≡ a = cc (rw (at_mail, at_id, account_by_email) at h) in
          let is_own : a.id ≡ id = cc in
          let at_own : lookup a.id m.accounts ≡ some x =
            ap (λ j. lookup j m.accounts) is_own ∙ at_id in
          (cc, rw at_own (ap ok same))
    ]),
    (λ (mail, h). elim (Option-cases (lookup a.id m.accounts)) [
      | inl missing ↦ cc (rw (missing, account) at h)
      | inr (x, at_id) ↦
          let same : x ≡ a = cc (rw (at_id, account) at h) in
          let (_, at_mail) = inv.indexed a.id x at_id in
          let at_email : lookup email m.by_email ≡ some a.id = cc in
          rw (at_email, at_id, account_by_email) (ap ok same)
    ]),
  )

  by_email_missing :
      (email : String)
      → (account_by_email email m ≡ err not_found)
        ↔ ((a : Account) → account a.id m ≡ ok a → a.email ≢ email)
  unfolding account account_by_email
  by_email_missing email = (
    (λ h a known same. cc (h, (by_email_found email a).1 (same, known))),
    (λ nobody. elim (Option-cases (lookup email m.by_email)) [
      | inl missing ↦ rw (missing, account_by_email) refl
      | inr (id, at_mail) ↦
          let (x, at_id, mail) = inv.entry email id at_mail in
          let (own, _) = inv.indexed id x at_id in
          let at_own : lookup x.id m.accounts ≡ some x =
            ap (λ j. lookup j m.accounts) own ∙ at_id in
          absurd (nobody x (rw at_own refl) mail)
    ]),
  )

  -- In a store whose index is in step, after a deletion neither the id nor the address is found any more.
  pub delete_account-gone :
      (id : String) (a : Account)
      → lookup id m.accounts ≡ some a
      → let m' = (delete_account id m).1 in
        (account id m' ≡ err not_found) × (account_by_email a.email m' ≡ err not_found)
  unfolding delete_account account account_by_email
  delete_account-gone id a at_id =
      rw (at_id, delete_account)
        (
          rw (lookup-erase_self id m.accounts),
          rw (lookup-erase_self a.email m.by_email, account_by_email),
        )

create_account_taken :
    (fresh : String) (now : ℕ) (c : Account) (m : Memory) {id : String}
    → lookup c.email m.by_email ≡ some id
    → create_account fresh now c m ≡ (err email_taken, m)
unfolding create_account
create_account_taken fresh now c m taken = rw (taken, create_account)

create_account_made :
    (fresh : String) (now : ℕ) (a : Account) (m : Memory)
    → lookup a.email m.by_email ≡ none
    → let b = completed fresh now a in
      create_account fresh now a m ≡ (
        ok b,
        record m { accounts = insert b.id b m.accounts; by_email = insert b.email b.id m.by_email },
      )
unfolding create_account
create_account_made fresh now a m free = rw (free, create_account)

-- A registration under a free address is found afterwards by its id and by its address, as it was
-- returned, and a second one under that address is refused and changes nothing.
pub create_account-found :
    (fresh : String) (now : ℕ) (a : Account) (m : Memory)
    → lookup a.email m.by_email ≡ none
    → let (r, m') = create_account fresh now a m in
      let b = completed fresh now a in
      (r ≡ ok b)
      × (account b.id m' ≡ ok b)
      × (account_by_email a.email m' ≡ ok b)
      × ((fresh' : String) (now' : ℕ) (c : Account)
          → c.email ≡ a.email
          → create_account fresh' now' c m' ≡ (err email_taken, m'))
unfolding account account_by_email
create_account-found fresh now a m free =
    let b : Account = completed fresh now a in
    let at_mail = lookup-insert_self a.email b.id m.by_email in
    rw (create_account_made fresh now a m free) (
      refl,
      rw (lookup-insert_self b.id b m.accounts),
      rw (at_mail, account_by_email) (rw (lookup-insert_self b.id b m.accounts)),
      λ fresh' now' c same.
          create_account_taken fresh' now' c _
            (ap (λ e. lookup e (insert a.email b.id m.by_email)) same ∙ at_mail),
    )

-- The stores that the account methods lead to from an empty one, where an id that is drawn or given for
-- a new account is not taken.
pub data Reachable : Memory → Type 0 where
  start : Reachable new_memory
  register :
      {m : Memory} (fresh : String) (now : ℕ) (a : Account)
      → lookup (completed fresh now a).id m.accounts ≡ none
      → Reachable m
      → Reachable (create_account fresh now a m).1
  change_status :
      {m : Memory} (id status : String) → Reachable m → Reachable (set_account_status id status m).1
  change_profile :
      {m : Memory} (id full_name org : String)
      → Reachable m
      → Reachable (update_account_profile id full_name org m).1
  change_password :
      {m : Memory} (id hash : String) → Reachable m → Reachable (set_account_password id hash m).1
  remove : {m : Memory} (id : String) → Reachable m → Reachable (delete_account id m).1

Reachable-IsIndexed : {m : Memory} → Reachable m → IsIndexed m
Reachable-IsIndexed start = new_memory-IsIndexed
Reachable-IsIndexed (register fresh now a free past) =
    create_account-IsIndexed (Reachable-IsIndexed past) fresh now a free
Reachable-IsIndexed (change_status id status past) =
    (account_changes-IsIndexed (Reachable-IsIndexed past) id status "" "" "").0
Reachable-IsIndexed (change_profile id full_name org past) =
    (account_changes-IsIndexed (Reachable-IsIndexed past) id "" full_name org "").1
Reachable-IsIndexed (change_password id hash past) =
    (account_changes-IsIndexed (Reachable-IsIndexed past) id "" "" "" hash).2
Reachable-IsIndexed (remove id past) =
    (account_changes-IsIndexed (Reachable-IsIndexed past) id "" "" "" "").3

-- After any calls of the account methods from an empty store, where the id of a new account is not taken,
-- AccountByEmail returns an account exactly if it has the address and is the one stored under its id, and
-- answers that there is none exactly if no stored account has the address.
pub account_by_email_finds :
    {m : Memory} (past : Reachable m) (email : String)
    → ((a : Account)
        → (account_by_email email m ≡ ok a) ↔ ((a.email ≡ email) × (account a.id m ≡ ok a)))
      × ((account_by_email email m ≡ err not_found)
          ↔ ((a : Account) → account a.id m ≡ ok a → a.email ≢ email))
account_by_email_finds past email =
    let inv = Reachable-IsIndexed past in (by_email_found inv email, by_email_missing inv email)
