-- ===== src/Ledger/Asset.antt =====
-- chaincode/asset/chaincode/contract.go: the asset custody contract.
pub mod Lifecycle
pub mod Contract
pub use Lifecycle.*
unfoldable pub use Contract.*
