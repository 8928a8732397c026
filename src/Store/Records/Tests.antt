-- ===== src/Store/Records/Tests.antt =====
-- Runs of the record methods on a small store.
use aplikasi_transaksi_kanto.Base.{◌≡◌, ◌≢◌, refl, String, [], ◌∷◌}
use aplikasi_transaksi_kanto.Base.Int64.{pos}
use aplikasi_transaksi_kanto.Store.Dict.{lookup}
use aplikasi_transaksi_kanto.Store.Types.{
  Certificate, Signature, Memory, ok, err, signature_exists, new_memory, cert_active,
}
use aplikasi_transaksi_kanto.Store.Records.{
  create_signature, signature, certificate, revoke_certificate,
}
use aplikasi_transaksi_kanto.Store.Records.Laws.{
  IsRevoked, create_signature_once, revoke_certificate-IsRevoked,
}

abbrev cert : Certificate
cert = record {
  id = "c1";
  enrollment_id = "e1";
  device_id = "d1";
  account_id = "a1";
  serial = "01";
  fingerprint = "f";
  pem = [];
  not_before = 3;
  not_after = 9;
  status = cert_active;
  revoked_at = 0;
  rev_reason = "";
}

abbrev two : Memory
two = record new_memory {
  certificates = ("c1", cert) ∷ ("c2", record cert { id = "c2"; not_before = 4 }) ∷ [];
}

abbrev sig : Signature
sig = record {
  public_id = "p1";
  account_id = "a1";
  device_id = "d1";
  certificate_id = "c1";
  cert_serial = "01";
  cert_fingerprint = "f";
  algorithm = "ML-DSA-65";
  pdf_profile = "";
  original_sha512 = "o";
  signed_sha512 = "s";
  client_claimed_signing_time = "";
  server_received_at = 4;
  storage_object_key = "k";
  signed_size = pos 10;
  verification_status = "valid";
  created_at = 0;
}

create_signature_once_example :
    let m' = (create_signature 7 sig two).1 in
    (signature "p1" m' ≡ ok (record sig { created_at = 7 }))
    × (create_signature 8 sig m' ≡ (err signature_exists, m'))
    × ((id : String) → "p1" ≢ id → signature id m' ≡ signature id two)
unfolding lookup
create_signature_once_example = create_signature_once 7 8 sig sig two refl refl

revoke_certificate-IsRevoked_example :
    IsRevoked 6 "c1" "lost" two (certificate "c1" two) (revoke_certificate 6 "c1" "lost" two)
revoke_certificate-IsRevoked_example = revoke_certificate-IsRevoked 6 "c1" "lost" two
