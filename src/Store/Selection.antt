-- ===== src/Store/Selection.antt =====
-- How memory.go picks entries out of a map: the loops that select by a field, that sort by a time
-- with `sort.Slice`, and that keep the latest. `sort.Slice` leaves the order of equal times open; the
-- model has one order.
pub mod Laws
use aplikasi_transaksi_kanto.Base.{
  ℕ, Bool, true, false, ◌&&◌, ◌||◌, not, Option, none, some, List, [], ◌∷◌, ltb, if◌then◌else◌,
}

module _ {A : Type 0} where
  -- `for … { if p(x) { out = append(out, x) } }`
  unfoldable pub select : (A → Bool) → List A → List A
  select p [] = []
  select p (x ∷ xs) = if p x then x ∷ select p xs else select p xs

  insert_by : (A → A → Bool) → A → List A → List A
  insert_by less x [] = x ∷ []
  insert_by less x (y ∷ ys) = if less y x then y ∷ insert_by less x ys else x ∷ y ∷ ys

  -- `sort.Slice(out, less)`
  unfoldable pub sort_slice : (A → A → Bool) → List A → List A
  unfolding insert_by
  sort_slice less [] = []
  sort_slice less (x ∷ xs) = insert_by less x (sort_slice less xs)

  -- `t1.After(t2)` against the best entry so far.
  abbrev is_later : (A → ℕ) → A → Option A → Bool
  is_later time x none = true
  is_later time x (some best) = ltb (time best) (time x)

  -- `if p(x) && (!found || x.T.After(latest.T)) { latest, found = x, true }`
  unfoldable pub latest : (A → Bool) → (A → ℕ) → Option A → List A → Option A
  latest p time best [] = best
  latest p time best (x ∷ xs) =
      latest p time (if p x && is_later time x best then some x else best) xs

module _ {A : Type 0} (time : A → ℕ) where
  -- `out[i].T.Before(out[j].T)` and `out[i].T.After(out[j].T)`
  abbrev pub before : A → A → Bool
  before x y = ltb (time x) (time y)

  abbrev pub after : A → A → Bool
  after x y = ltb (time y) (time x)
