-- ===== src/Ledger/Stub/Keys.antt =====
-- The peer behind the stub: an interface, since Fabric is not in the repository.
use aplikasi_transaksi_kanto.Base.{
  ◌≡◌, refl, ◌≢◌, ◌↔◌, Bool, true, Option, some, String, List, if◌then◌else◌, Bool-cases, inl, inr,
  ap, ◌∙◌,
}
use aplikasi_transaksi_kanto.Ledger.Stub.Monad.{ok, err, Action}

-- `create_composite_key` refuses an object type or attribute that is no legal key text, and is
-- injective, as Fabric documents. `reads` and `writes` say at which keys the peer answers GetState
-- and PutState without an error.
pub record Shim : Type 1 where
  pub Key : Type 0
  pub same_key : Key → Key → Bool
  pub same_key_iff : (a b : Key) → (same_key a b ≡ true) ↔ (a ≡ b)
  pub create_composite_key : String → List String → Option Key
  pub composite_injective :
      (t u : String) (xs ys : List String) (k : Key)
      → create_composite_key t xs ≡ some k
      → create_composite_key u ys ≡ some k
      → (t ≡ u) × (xs ≡ ys)
  pub reads : Key → Bool
  pub writes : Key → Bool

module _ (sh : Shim) {D : Type 0} where
  -- World state after a write.
  abbrev pub update : (sh.Key → Option D) → sh.Key → D → sh.Key → Option D
  update m k d j = if sh.same_key k j then some d else m j

  pub update_same : (m : sh.Key → Option D) (k : sh.Key) (d : D) → update m k d k ≡ some d
  update_same m k d = rw ((sh.same_key_iff k k).1 refl)

  pub update_other : (m : sh.Key → Option D) (k j : sh.Key) (d : D) → k ≢ j → update m k d j ≡ m j
  update_other m k j d ne = elim (Bool-cases (sh.same_key k j)) [
    | inl same ↦ absurd (ne ((sh.same_key_iff k j).0 same))
    | inr other ↦ rw other
  ]

module _ (sh : Shim) {D E : Type 0} where
  -- GetStub().GetState(key)
  unfoldable pub get_state : E → sh.Key → Action sh.Key D E (Option D)
  get_state e k s = (if sh.reads k then ok (s.state k) else err e, s)

  -- GetStub().PutState(key, value)
  unfoldable pub put_state : E → sh.Key → D → Action sh.Key D E (Unit {0})
  put_state e k d s =
      if sh.writes k then (ok tt, record s { state = update sh s.state k d }) else (err e, s)

  -- GetStub().SetEvent(name, payload): it refuses the empty name only, and no name is empty here.
  unfoldable pub set_event : String → D → Action sh.Key D E (Unit {0})
  set_event name d s = (ok tt, record s { event = some (name, d) })

module _ (sh : Shim) where
  -- Keys of different object types are different.
  pub other_type :
      {t u : String} {xs ys : List String} {j k : sh.Key}
      → t ≢ u
      → sh.create_composite_key t xs ≡ some j
      → sh.create_composite_key u ys ≡ some k
      → j ≢ k
  other_type {t} {u} {xs} {ys} {j} {k} ne p q e =
      ne (sh.composite_injective t u xs ys k (p ∙ ap some e) q).0

  -- Keys with different attributes are different.
  pub other_attributes :
      {t u : String} {xs ys : List String} {j k : sh.Key}
      → xs ≢ ys
      → sh.create_composite_key t xs ≡ some j
      → sh.create_composite_key u ys ≡ some k
      → j ≢ k
  other_attributes {t} {u} {xs} {ys} {j} {k} ne p q e =
      ne (sh.composite_injective t u xs ys k (p ∙ ap some e) q).1
