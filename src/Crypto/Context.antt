-- ===== src/Crypto/Context.antt =====
-- crypto/signing_context.go: the text that is signed.
use Prim.Native.String.{◌++◌}
use aplikasi_transaksi_kanto.Base.{String}

pub record SigningContext : Type 0 where
  pub application : String
  pub environment : String
  pub transaction_type : String
  pub schema_version : String
  pub transaction_id : String

-- The format string of `bind`, with its six fields.
unfoldable pub bind : SigningContext → String → String
bind c payload_hash =
    "pqc-ledger-sig-ctx/v1\napplication="
    ++ (c.application
        ++ ("\nenvironment="
            ++ (c.environment
                ++ ("\ntransaction_type="
                    ++ (c.transaction_type
                        ++ ("\nschema_version="
                            ++ (c.schema_version
                                ++ ("\ntransaction_id="
                                    ++ (c.transaction_id
                                        ++ ("\npayload_hash=" ++ payload_hash))))))))))
