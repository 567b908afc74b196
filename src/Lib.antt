-- ===== src/Lib.antt =====
-- nmcd, a Namecoin node: a verification library for the code that decides what is accepted and for the
-- formats that it stores and parses.
--
-- A block arrives, its height is found, and its name operations are checked output by output against
-- the name database; a transaction that waits for a block goes through the same rules on its way into
-- the pool. Names travel in scripts, which the wallet builds and the chain parses, and rest on disk as
-- encoded records and unspent outputs. Merged mining ties a block to a parent block by a merkle branch
-- and a commitment in the parent's coinbase.
-- A block that is connected writes its operations to the name database, which keeps a cache before the
-- buckets of a file, and a block that is disconnected is undone from the backups that it left.
--
-- The files, and the code that they model:
--   Config            config/config.go, config/subsidy.go and config/namecoin_params.go: constants,
--                     networks, `CalcBlockSubsidy`.
--   Script            chain/name_script.go: `readPushData` (PushData), `parseNameScriptFull` and
--                     `validateScriptFormat` (Parse), `extractAddressFromNameScript` (Skip); the script
--                     builders of wallet/wallet.go (Build). Grammar is an independent description of the
--                     accepted scripts.
--   NameDb            namedb/namedb.go and namedb/utxo.go: the encodings and the keys; namedb/cache.go:
--                     the LRU cache of records (Cache).
--   Database          namedb/namedb.go and namedb/utxo.go over the buckets: `PutName`, `GetName`,
--                     `DeleteName` and the scans (Names), `AddHistory` and its kin (History), the backups
--                     of expired names (Expired), NAME_NEW (Commitments), outputs (Utxos); the batch
--                     writer of namedb/batch.go (Batch).
--   Chain             chain/blockchain.go: `sumInputValues`, `validateTransactionFee` (Fees), the rules
--                     of the three operations (Rules), `validateNameOperations` (Block),
--                     `ValidateMempoolTransaction` (Mempool), `safeCalcExpiresAt` and
--                     `ParseNameOperationsFromTx` (Lookup), `updateNameDatabase` (Update),
--                     `rollbackNameOperations` (Rollback), `validateBlockSubsidy` (Subsidy); chain/auxpow.go
--                     and chain/auxpow_validation.go: `validateAuxPow` (Merged).
--   AuxPow            chain/auxpow.go: merkle branches and the search for the commitment.
--   Mempool           network/mempool.go: the pool of transactions.
--   Tests             the theorems at concrete inputs.
--   Prelude, Result, Slices, Int   lists, bytes, Go's results and bounds checks, and fixed-width integers.
--
-- A Go call returns `ok`, `err`, or `panic` for an index or a slice out of range. Integers of Go are
-- numbers with their wrap-around written out; int is taken to have 64 bits and does not wrap on lengths.
-- Error values name the message and keep the numbers that tell cases apart. Log lines, metrics and locks
-- are left out: each operation holds its lock for its whole length.
--
-- Parameters: btcd's hashes (`DoubleHashH`, `Hash160`, `TxHash`), the decoding of payment scripts, the
-- height index of btcd's chain, and the clock. bbolt is the parameter `Database.Bbolt`: the calls on a
-- bucket, its entries in the order of a cursor, and the answer of a commit; `Database.BboltLaws` is what
-- its documentation says of them, and Tests/Store has buckets that obey it. The order in which Go ranges over a
-- map is a parameter of Batch. The rules read the database and the variable
-- `config.UTXOTrackingStartHeight` through the record `Chain.Store`. The validator of the pool may answer
-- differently from one reading of the clock to the next. Times in records are whole seconds, as they are
-- written; a record that is put is in the ranges of its fields. Structural recursion
-- follows the data everywhere but in the search for the commitment, which has fuel for one turn per
-- byte and one more, and drops a byte or more in each turn.
--
-- Not modelled: the network, the RPC server, the clients, the mail gateway, the cache of
-- merged-mining checks, the wallet's coin selection and signing, metrics and logging, and the start-up code.
pub mod Prelude
pub mod Result
pub mod Slices
pub mod Int
pub mod Config
pub mod Script
pub mod NameDb
pub mod Database
pub mod Chain
pub mod AuxPow
pub mod Mempool
pub mod Tests
