-- ===== src/Crypto/Hybrid/Tests.antt =====
-- Signatures that are as long as the key, to run the envelope on, and a clash of two contexts.
use aplikasi_transaksi_kanto.Base.{
  ◌≡◌, ◌↔◌, ℕ, zero, suc, refl, true, none, some, [], ◌∷◌, length, ◌==◌, arith, Bool, Option,
}
use aplikasi_transaksi_kanto.Crypto.Context.{SigningContext, bind}
use aplikasi_transaksi_kanto.Crypto.Hybrid.{
  Bytes, Primitives, SigningIdentity, HybridSignature, VerifyHybridResult, CryptoError, Outcome,
  returned, sign_classical, sign_mldsa, sign_hybrid, verify_hybrid, verify_hybrid_with_hash,
  suite_hybrid_ed25519_mldsa65_v1,
}
use aplikasi_transaksi_kanto.Crypto.Hybrid.Laws.{
  keys_of, accepts, IsVerified, sign_hybrid-verifies, verify_hybrid_with_hash_iff,
}

-- Keys and signatures of zeros, of the lengths that ed25519 has.
abbrev pub zeros : ℕ → Bytes
zeros zero = []
zeros (suc n) = 0 ∷ zeros n

abbrev same_length : Bytes → Bytes → Bool
same_length a b = length a == length b

pub same_length_self : (k : Bytes) → same_length k k ≡ true
same_length_self k = ground arith

abbrev pub lengths : Primitives
lengths = record {
  ed25519_new_key = λ seed. zeros 64;
  ed25519_public = λ k. zeros 32;
  ed25519_sign = λ k m. zeros 64;
  ed25519_verify = λ k m s. same_length (zeros 64) s;
  ed25519_public_size = λ seed size. refl;
  ed25519_correct = λ seed m size. refl;
  mldsa_public = λ k. k;
  mldsa_sign = λ k m. some k;
  mldsa_loads = λ k. true;
  mldsa_accepts = λ k m s. same_length k s;
  mldsa_correct = λ k m s h. (refl, ground (arith, h));
}

abbrev ana : SigningIdentity
ana = record {
  classical_key_id = "c1";
  classical_private = zeros 64;
  pqc_key_id = "q1";
  pqc_private = 2 ∷ 3 ∷ [];
}

abbrev context : SigningContext
context = record {
  application = "app";
  environment = "dev";
  transaction_type = "RELEASE";
  schema_version = "v1";
  transaction_id = "t1";
}

abbrev envelope_of_ana : HybridSignature
envelope_of_ana = record {
  algorithm_suite = suite_hybrid_ed25519_mldsa65_v1;
  classical_key_id = "c1";
  pqc_key_id = "q1";
  classical_signature = zeros 64;
  pqc_signature = 2 ∷ 3 ∷ [];
}

signed : sign_hybrid lengths ana context (some "h1") ≡ returned (some (envelope_of_ana, "h1"))
unfolding sign_hybrid sign_classical sign_mldsa
signed = refl

sign_hybrid-verifies_example :
    let good : Outcome (VerifyHybridResult × Option CryptoError) =
      returned (record { suite_allowed = true; classical_valid = true; pqc_valid = true }, none) in
    (verify_hybrid_with_hash lengths (keys_of lengths ana) envelope_of_ana context "h1" ≡ good)
    × (verify_hybrid lengths (keys_of lengths ana) envelope_of_ana context (some "h1") ≡ good)
sign_hybrid-verifies_example =
    sign_hybrid-verifies lengths ana (zeros 32) context (some "h1") envelope_of_ana "h1" refl refl
      signed

verify_hybrid_with_hash_iff_example :
    (accepts (verify_hybrid_with_hash lengths (keys_of lengths ana) envelope_of_ana context "h1")
      ≡ true)
    ↔ ((length (zeros 32) ≡ 32)
        × IsVerified lengths (keys_of lengths ana) envelope_of_ana context "h1")
verify_hybrid_with_hash_iff_example =
    verify_hybrid_with_hash_iff lengths (keys_of lengths ana) envelope_of_ana context "h1"

-- A newline in the type or in the schema version moves text from one field into the other.
clash :
    bind (record context { transaction_type = "t\nschema_version=s"; schema_version = "v" }) "h1"
    ≡ bind (record context { transaction_type = "t"; schema_version = "s\nschema_version=v" }) "h1"
unfolding bind
clash = refl
