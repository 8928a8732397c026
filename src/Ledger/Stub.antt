-- ===== src/Ledger/Stub.antt =====
-- What the contracts of chaincode/transaction and chaincode/asset use of Fabric's chaincode stub
-- (a library that is not in the repository): composite keys, GetState, PutState and SetEvent.
-- A `Shim` is the peer as the contracts see it. World state is a function from keys to documents: a
-- document is the struct that `json.Marshal` has written, since marshalling a struct of texts,
-- integers and bytes does not fail and `json.Unmarshal` gives the struct back.
mod Monad
mod Keys
mod Peer
pub use Monad.*
pub use Peer.*
unfoldable pub use Keys.*
