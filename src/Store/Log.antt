-- ===== src/Store/Log.antt =====
-- The object, audit and super-admin methods of ttd/server/internal/store/memory.go.
mod Tests
pub mod Laws
use aplikasi_transaksi_kanto.Base.{
  ℕ, ◌-◌, Bool, true, false, ◌||◌, Option, none, some, String, List, [], ◌∷◌, ◌++◌, length, drop,
  leb, ltb, if◌then◌else◌,
}
use aplikasi_transaksi_kanto.Base.Int64.{ℤ, pos, negsuc}
use aplikasi_transaksi_kanto.Store.Dict.{lookup, insert}
use aplikasi_transaksi_kanto.Store.Types.{
  AuditEvent, SuperSecurity, Memory, Result, ok, err, not_found, found,
}

-- The store keeps a copy of the bytes, and hands out copies.
pub put_object : String → List ℕ → Memory → Memory
put_object key bytes m = record m { objects = insert key bytes m.objects }

pub get_object : String → Memory → Result (List ℕ)
get_object key m = found (lookup key m.objects)

-- `io.ReadAll` has given the bytes, or an error, on which nothing is stored.
pub put_object_from : String → Option (List ℕ) → Memory → Bool × Memory
put_object_from key none m = (false, m)
put_object_from key (some bytes) m = (true, put_object key bytes m)

-- The reader's bytes and their number.
abbrev sized : Result (List ℕ) → Result (List ℕ × ℕ)
sized (ok bytes) = ok (bytes, length bytes)
sized (err e) = err e

pub open_object : String → Memory → Result (List ℕ × ℕ)
open_object key m = sized (get_object key m)

pub append : String → ℕ → AuditEvent → Memory → Memory
append fresh now ev m = record m { audit = m.audit ++ record ev { id = fresh; time = now } ∷ [] }

-- `if limit <= 0 || limit > len(m.audit) { limit = len(m.audit) }`
abbrev clamp_limit : ℤ → ℕ → ℕ
clamp_limit (negsuc _) len = len
clamp_limit (pos n) len = if leb n 0 || ltb len n then len else n

-- `m.audit[len(m.audit)-limit:]`
pub audit_events : ℤ → Memory → List AuditEvent
audit_events limit m = let len = length m.audit in drop (len - clamp_limit limit len) m.audit

pub super_security : String → Memory → Result SuperSecurity
super_security id m = found (lookup id m.super)

pub put_super_security : SuperSecurity → Memory → Memory
put_super_security s m = record m { super = insert s.account_id s m.super }
