-- ===== src/Decode.antt =====
-- decode/evm_rpc.go: the groups of Ethereum methods (Methods), the block number of a request
-- (BlockNumber), what the tables of methods guarantee (Groups), and what parsing guarantees
-- (Parsing).
pub mod Methods
pub mod BlockNumber
pub mod Groups
pub mod Parsing
