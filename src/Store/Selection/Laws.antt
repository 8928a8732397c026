-- ===== src/Store/Selection/Laws.antt =====
-- The selections are what they say: a sorted permutation of the chosen entries, and an entry than
-- which none of the chosen is later.
use mathlib.Core.List.{Perm}
use mathlib.Core.List.Perm
use aplikasi_transaksi_kanto.Base.{
  ℕ, ◌≡◌, ◌≤◌, ◌⊎◌, inl, inr, Bool, true, false, Option, none, some, List, [], ◌∷◌, ltb, arith,
  ◌&&◌, Bool-cases, sym, ap, some-injective,
}
use aplikasi_transaksi_kanto.Store.Selection.{
  before, after, select, insert_by, sort_slice, is_later, latest,
}

module _ {A : Type 0} where
  -- `x` stands in the list.
  abbrev pub IsIn : A → List A → Type 0
  IsIn x [] = ⊥
  IsIn x (y ∷ ys) = (x ≡ y) ⊎ IsIn x ys

  -- No entry is before an earlier one in the order `less`.
  abbrev pub IsSorted : (A → A → Bool) → List A → Type 0
  IsSorted less [] = Unit
  IsSorted less (x ∷ xs) = ((y : A) → IsIn y xs → less y x ≡ false) × IsSorted less xs

  insert_by-perm : (less : A → A → Bool) (x : A) (ys : List A) → Perm (insert_by less x ys) (x ∷ ys)
  unfolding insert_by
  insert_by-perm less x [] = Perm.refl (x ∷ [])
  insert_by-perm less x (y ∷ ys) = elim (Bool-cases (less y x)) [
    | inl first ↦ rw first (Perm.trans (Perm.cons y (insert_by-perm less x ys)) (Perm.swap x y ys))
    | inr after ↦ rw after (Perm.refl (x ∷ y ∷ ys))
  ]

  sort_slice-perm : (less : A → A → Bool) (xs : List A) → Perm (sort_slice less xs) xs
  unfolding sort_slice
  sort_slice-perm less [] = Perm.refl []
  sort_slice-perm less (x ∷ xs) =
      Perm.trans (insert_by-perm less x (sort_slice less xs))
        (Perm.cons x (sort_slice-perm less xs))

  IsIn-insert_by :
      (less : A → A → Bool) (x y : A) (ys : List A)
      → IsIn y (insert_by less x ys)
      → (y ≡ x) ⊎ IsIn y ys
  unfolding insert_by
  IsIn-insert_by less x y [] h = h
  IsIn-insert_by less x y (z ∷ zs) h = elim (Bool-cases (less z x)) [
    | inl first ↦ elim (rw first at h) [
      | inl e ↦ inr (inl e)
      | inr r ↦ elim (IsIn-insert_by less x y zs r) [ inl e ↦ inl e | inr q ↦ inr (inr q) ]
    ]
    | inr after ↦ rw after at h
  ]

  IsIn-sort_slice :
      (less : A → A → Bool) (y : A) (xs : List A) → IsIn y (sort_slice less xs) → IsIn y xs
  unfolding sort_slice
  IsIn-sort_slice less y [] h = h
  IsIn-sort_slice less y (x ∷ xs) h = elim (IsIn-insert_by less x y (sort_slice less xs) h) [
    | inl e ↦ inl e
    | inr r ↦ inr (IsIn-sort_slice less y xs r)
  ]

  -- `less` is a strict weak order, as `sort.Slice` asks.
  pub record IsOrder (less : A → A → Bool) : Type 0 where
    pub asym : (x y : A) → less x y ≡ true → less y x ≡ false
    pub negative : (x y z : A) → less y x ≡ false → less z y ≡ false → less z x ≡ false

  insert_by-IsSorted :
      (less : A → A → Bool) (o : IsOrder less) (x : A) (ys : List A)
      → IsSorted less ys
      → IsSorted less (insert_by less x ys)
  unfolding insert_by
  insert_by-IsSorted less o x [] h = ((λ y i. absurd i), tt)
  insert_by-IsSorted less o x (y ∷ ys) h = elim (Bool-cases (less y x)) [
    | inl first ↦ rw first (
      (λ z i. elim (IsIn-insert_by less x z ys i) [
        | inl e ↦ rw e (o.asym y x first)
        | inr r ↦ h.0 z r
      ]),
      insert_by-IsSorted less o x ys h.1,
    )
    | inr after ↦
        rw after
          ((λ z i. elim i [ inl e ↦ rw e after | inr r ↦ o.negative x y z after (h.0 z r) ]), h)
  ]

  sort_slice-IsSorted :
      (less : A → A → Bool) (o : IsOrder less) (xs : List A) → IsSorted less (sort_slice less xs)
  unfolding sort_slice
  sort_slice-IsSorted less o [] = tt
  sort_slice-IsSorted less o (x ∷ xs) =
      insert_by-IsSorted less o x (sort_slice less xs) (sort_slice-IsSorted less o xs)

  pub sort_slice_correct :
      (less : A → A → Bool) (o : IsOrder less) (xs : List A)
      → IsSorted less (sort_slice less xs) × Perm (sort_slice less xs) xs
  sort_slice_correct less o xs = (sort_slice-IsSorted less o xs, sort_slice-perm less xs)

  -- The entries that pass the test, and no others, are selected.
  pub IsIn-select :
      (p : A → Bool) (y : A) (xs : List A)
      → (IsIn y (select p xs) → IsIn y xs × (p y ≡ true))
        × (IsIn y xs → p y ≡ true → IsIn y (select p xs))
  unfolding select
  IsIn-select p y [] = ((λ h. absurd h), (λ h q. h))
  IsIn-select p y (x ∷ xs) = elim (Bool-cases (p x)) [
    | inl passes ↦ rw passes (
      (λ h. elim h [
        | inl e ↦ (inl e, rw e passes)
        | inr r ↦ (inr ((IsIn-select p y xs).0 r).0, ((IsIn-select p y xs).0 r).1)
      ]),
      (λ h q. elim h [ inl e ↦ inl e | inr r ↦ inr ((IsIn-select p y xs).1 r q) ]),
    )
    | inr fails ↦ rw fails (
      (λ h. (inr ((IsIn-select p y xs).0 h).0, ((IsIn-select p y xs).0 h).1)),
      (λ h q. elim h [
        | inl e ↦ absurd (let bad : p x ≡ true = cc in cc)
        | inr r ↦ (IsIn-select p y xs).1 r q
      ]),
    )
  ]

  module _ (p : A → Bool) (time : A → ℕ) where
    -- `best` is none, or an entry that is not later than `x`.
    abbrev AtMost : Option A → A → Type 0
    AtMost none x = Unit
    AtMost (some b) x = time b ≤ time x

    latest-ge :
        (best : Option A) (xs : List A) (x : A)
        → latest p time best xs ≡ some x
        → AtMost best x × ((y : A) → IsIn y xs → p y ≡ true → time y ≤ time x)
    unfolding latest
    latest-ge none [] x h = absurd (cc)
    latest-ge (some b) [] x h = (omega (arith, ap time (some-injective b x h)), λ y i. absurd i)
    latest-ge none (z ∷ zs) x h = elim (Bool-cases (p z)) [
      | inl passes ↦
          let (a, rest) = latest-ge (some z) zs x (rw passes at h) in
          (tt, λ y i q. elim i [ inl e ↦ rw e a | inr r ↦ rest y r q ])
      | inr fails ↦
          let (a, rest) = latest-ge none zs x (rw fails at h) in
          (
            tt,
            λ y i q. elim i [
              | inl e ↦ absurd (let bad : p z ≡ true = cc in cc)
              | inr r ↦ rest y r q
            ],
          )
    ]
    latest-ge (some b) (z ∷ zs) x h = elim (Bool-cases (p z)) [
      | inr fails ↦
          let (a, rest) = latest-ge (some b) zs x (rw fails at h) in
          (
            a,
            λ y i q. elim i [
              | inl e ↦ absurd (let bad : p z ≡ true = cc in cc)
              | inr r ↦ rest y r q
            ],
          )
      | inl passes ↦ elim (Bool-cases (ltb (time b) (time z))) [
        | inl later ↦
            let (a, rest) = latest-ge (some z) zs x (rw (passes, later) at h) in
            (ground arith, λ y i q. elim i [ inl e ↦ rw e a | inr r ↦ rest y r q ])
        | inr not_later ↦
            let (a, rest) = latest-ge (some b) zs x (rw (passes, not_later) at h) in
            (a, λ y i q. elim i [ inl e ↦ rw e (ground arith) | inr r ↦ rest y r q ])
      ]
    ]

    latest-from :
        (best : Option A) (xs : List A) (x : A)
        → latest p time best xs ≡ some x
        → (best ≡ some x) ⊎ (IsIn x xs × (p x ≡ true))
    unfolding latest
    latest-from best [] x h = inl h
    latest-from best (z ∷ zs) x h = elim (Bool-cases (p z && is_later time z best)) [
      | inr kept ↦ elim (latest-from best zs x (rw kept at h)) [
        | inl e ↦ inl e
        | inr (i, q) ↦ inr (inr i, q)
      ]
      | inl taken ↦ elim (latest-from (some z) zs x (rw taken at h)) [
        | inl e ↦
            let same : z ≡ x = cc in
            let passes : p z ≡ true = ground arith in inr (inl (sym same), cc)
        | inr (i, q) ↦ inr (inr i, q)
      ]
    ]

    latest-none : (xs : List A) → latest p time none xs ≡ none → (y : A) → IsIn y xs → p y ≡ false
    unfolding latest
    latest-none [] h y i = absurd i
    latest-none (z ∷ zs) h y i = elim (Bool-cases (p z)) [
      | inr fails ↦ elim i [ inl e ↦ rw e fails | inr r ↦ latest-none zs (rw fails at h) y r ]
      | inl passes ↦ absurd (never zs z (rw passes at h))
    ]
      where
        never : (xs : List A) (b : A) → latest p time (some b) xs ≡ none → ⊥
        never [] b h = cc
        never (x ∷ xs) b h = elim (Bool-cases (p x && ltb (time b) (time x))) [
          | inl yes' ↦ never xs x (rw yes' at h)
          | inr no' ↦ never xs b (rw no' at h)
        ]

    -- The entry that the loop keeps passes the test, and none that passes is later; and there is
    -- one if any entry passes.
    pub latest_correct :
        (xs : List A)
        → ((x : A)
            → latest p time none xs ≡ some x
            → IsIn x xs × (p x ≡ true) × ((y : A) → IsIn y xs → p y ≡ true → time y ≤ time x))
          × (latest p time none xs ≡ none → (y : A) → IsIn y xs → p y ≡ false)
    latest_correct xs = (
      (λ x h. elim (latest-from none xs x h) [
        | inl e ↦ absurd (cc)
        | inr (i, q) ↦ (i, q, (latest-ge none xs x h).1)
      ]),
      latest-none xs,
    )

module _ {A : Type 0} (time : A → ℕ) where
  pub before-IsOrder : IsOrder (before time)
  before-IsOrder = record { asym = λ x y h. ground arith; negative = λ x y z h k. ground arith }

  pub after-IsOrder : IsOrder (after time)
  after-IsOrder = record { asym = λ x y h. ground arith; negative = λ x y z h k. ground arith }
