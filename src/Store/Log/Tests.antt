-- ===== src/Store/Log/Tests.antt =====
-- Runs of the log and the object store.
use aplikasi_transaksi_kanto.Base.{◌≡◌, [], ◌∷◌, ◌++◌}
use aplikasi_transaksi_kanto.Base.Int64.{pos}
use aplikasi_transaksi_kanto.Store.Types.{AuditEvent, Memory, new_memory}
use aplikasi_transaksi_kanto.Store.Log.{append, audit_events}
use aplikasi_transaksi_kanto.Store.Log.Laws.{append-audit_events}

abbrev seen : AuditEvent
seen = record {
  id = "e1";
  time = 1;
  type = "auth.login";
  account_id = "a1";
  device_id = "";
  result = "ok";
  detail = "";
}

abbrev logged : Memory
logged = record new_memory { audit = seen ∷ record seen { id = "e2" } ∷ [] }

append-audit_events_example :
    let m' = append "e3" 4 seen logged in
    let stored : AuditEvent = record seen { id = "e3"; time = 4 } in
    (audit_events (pos 1) m' ≡ stored ∷ [])
    × (audit_events (pos 0) m' ≡ audit_events (pos 0) logged ++ stored ∷ [])
append-audit_events_example = append-audit_events "e3" 4 seen logged
