-- ===== src/Crypto/Hybrid.antt =====
-- crypto/suite.go, classical.go, mldsa.go and hybrid.go. The two signature algorithms are those of Go's
-- crypto/ed25519 and crypto/mldsa: parameters, with the correctness that their documentation
-- states. A payload is given by what `PayloadHash` makes of it.
pub mod Tests
pub mod Laws
use aplikasi_transaksi_kanto.Base.{
  ℕ, ◌≡◌, Bool, true, false, ◌&&◌, Option, none, some, String, List, str_eq, if◌then◌else◌, length,
  ◌==◌,
}
use aplikasi_transaksi_kanto.Crypto.Context.{SigningContext, bind}

abbrev pub Bytes : Type 0
Bytes = List ℕ

abbrev pub suite_hybrid_ed25519_mldsa65_v1 : String
suite_hybrid_ed25519_mldsa65_v1 = "HYBRID_ED25519_MLDSA65_V1"

-- What a Go call comes to: it returns, or it panics.
pub data Outcome {ℓ} (A : Type ℓ) : Type ℓ where
  returned : A → Outcome A
  panicked : Outcome A

-- Go's crypto/ed25519 and crypto/mldsa. `ed25519_new_key` is NewKeyFromSeed and `ed25519_public` the
-- private key's Public; Sign and Verify are given for keys of the length that they ask for, and sign and
-- verify together for the key of a seed of 32 bytes. `mldsa_sign` has no answer if the private key does not load
-- or the signature fails, `mldsa_loads` says whether a public key loads.
pub record Primitives : Type 0 where
  pub ed25519_new_key : Bytes → Bytes
  pub ed25519_public : Bytes → Bytes
  pub ed25519_sign : Bytes → String → Bytes
  pub ed25519_verify : Bytes → String → Bytes → Bool
  pub ed25519_public_size :
      (seed : Bytes) → length seed ≡ 32 → length (ed25519_public (ed25519_new_key seed)) ≡ 32
  pub ed25519_correct :
      (seed : Bytes) (m : String)
      → length seed ≡ 32
      → let k = ed25519_new_key seed in
        ed25519_verify (ed25519_public k) m (ed25519_sign k m) ≡ true
  pub mldsa_public : Bytes → Bytes
  pub mldsa_sign : Bytes → String → Option Bytes
  pub mldsa_loads : Bytes → Bool
  pub mldsa_accepts : Bytes → String → Bytes → Bool
  pub mldsa_correct :
      (k : Bytes) (m : String) (s : Bytes)
      → mldsa_sign k m ≡ some s
      → (mldsa_loads (mldsa_public k) ≡ true) × (mldsa_accepts (mldsa_public k) m s ≡ true)

-- `suiteRegistry` has one suite.
pub suite_allowed : String → Bool
suite_allowed s = str_eq s suite_hybrid_ed25519_mldsa65_v1

pub record HybridSignature : Type 0 where
  pub algorithm_suite : String
  pub classical_key_id : String
  pub pqc_key_id : String
  pub classical_signature : Bytes
  pub pqc_signature : Bytes

pub record SigningIdentity : Type 0 where
  pub classical_key_id : String
  pub classical_private : Bytes
  pub pqc_key_id : String
  pub pqc_private : Bytes

pub record VerificationKeys : Type 0 where
  pub classical_public : Bytes
  pub pqc_public : Bytes

pub record VerifyHybridResult : Type 0 where
  pub suite_allowed : Bool
  pub classical_valid : Bool
  pub pqc_valid : Bool

-- `OK`
abbrev pub result_ok : VerifyHybridResult → Bool
result_ok r = r.suite_allowed && r.classical_valid && r.pqc_valid

pub data CryptoError : Type 0 where
  bad_payload sign_failed suite_refused bad_public_key : CryptoError

module _ (p : Primitives) where
  -- ed25519.Sign panics unless the private key has 64 bytes.
  unfoldable pub sign_classical : Bytes → String → Outcome Bytes
  sign_classical private message =
      if length private == 64 then returned (p.ed25519_sign private message) else panicked

  -- ed25519.Verify panics unless the public key has 32 bytes.
  pub verify_classical : Bytes → String → Bytes → Outcome Bool
  verify_classical public message sig =
      if length public == 32 then returned (p.ed25519_verify public message sig) else panicked

  unfoldable pub sign_mldsa : Bytes → String → Option Bytes
  sign_mldsa private message = p.mldsa_sign private message

  -- An error if the key does not load; a signature that does not verify is false.
  pub verify_mldsa : Bytes → String → Bytes → Option Bool
  verify_mldsa public message sig =
      if p.mldsa_loads public then some (p.mldsa_accepts public message sig) else none

  -- The envelope, once the second signature is there.
  abbrev envelope : SigningIdentity → Bytes → Option Bytes → Option HybridSignature
  envelope identity classical_sig none = none
  envelope identity classical_sig (some pqc_sig) = some (record {
    algorithm_suite = suite_hybrid_ed25519_mldsa65_v1;
    classical_key_id = identity.classical_key_id;
    pqc_key_id = identity.pqc_key_id;
    classical_signature = classical_sig;
    pqc_signature = pqc_sig;
  })

  -- SignHybrid; the payload hash comes back with the envelope.
  unfoldable pub sign_hybrid :
      SigningIdentity → SigningContext → Option String → Outcome (Option (HybridSignature × String))
  sign_hybrid identity ctx none = returned none
  sign_hybrid identity ctx (some payload_hash) =
      let bound = bind ctx payload_hash in
      elim (sign_classical identity.classical_private bound) [
        | panicked ↦ panicked
        | returned classical_sig ↦
            elim (envelope identity classical_sig (sign_mldsa identity.pqc_private bound)) [
              | none ↦ returned none
              | some sig ↦ returned (some (sig, payload_hash))
            ]
      ]

  -- VerifyHybridWithHash: the result and the error.
  pub verify_hybrid_with_hash :
      VerificationKeys
      → HybridSignature
      → SigningContext
      → String
      → Outcome (VerifyHybridResult × Option CryptoError)
  verify_hybrid_with_hash keys sig ctx payload_hash =
      if suite_allowed sig.algorithm_suite
      then (let bound = bind ctx payload_hash in
          elim (verify_classical keys.classical_public bound sig.classical_signature) [
            | panicked ↦ panicked
            | returned classical ↦ elim (verify_mldsa keys.pqc_public bound sig.pqc_signature) [
              | none ↦ returned (
                record { suite_allowed = true; classical_valid = classical; pqc_valid = false },
                some bad_public_key,
              )
              | some valid ↦ returned (
                record { suite_allowed = true; classical_valid = classical; pqc_valid = valid },
                none,
              )
            ]
          ])
      else returned (
        record { suite_allowed = false; classical_valid = false; pqc_valid = false },
        some suite_refused,
      )

  -- VerifyHybrid
  pub verify_hybrid :
      VerificationKeys
      → HybridSignature
      → SigningContext
      → Option String
      → Outcome (VerifyHybridResult × Option CryptoError)
  verify_hybrid keys sig ctx none = returned (
    record { suite_allowed = false; classical_valid = false; pqc_valid = false },
    some bad_payload,
  )
  verify_hybrid keys sig ctx (some payload_hash) = verify_hybrid_with_hash keys sig ctx payload_hash
