-- ===== src/Lib.antt =====
-- Midgard reads the blocks of a chain, records their events in a database, and keeps the depths of
-- the pools in memory. This library models the path that an event takes and proves what it does.
--
-- The parts, and the files that model them:
-- - Base: Go's integers, strings and maps. An int64 is an integer ℤ with its wrap-around written
--   out (Base/Int), a string or byte slice is a list of byte values (Base/Bytes), a map is an
--   association list (Base/Maps), and a nil slice is `none`.
-- - Util: internal/util/util.go (Memo, Asset), and the reading and printing of decimal numbers that
--   the program takes from strconv (Numbers), and from utf8 and base64 (Text).
-- - Db: internal/db. EventId has the encoding of the place of an event as an int64, and Inserter
--   the batch inserter, which collects rows until it is flushed. Buckets cuts a period into
--   intervals, with the SQL query as a parameter.
-- - Record: internal/fetch/record. Events has the structs of event.go, Coin the kinds of assets,
--   Totals and ChainInfo the state in memory (aggregate.go, chainInfo.go), and Pools, Swaps,
--   Withdrawals and Notices the handlers of record.go: OnSwap is on_swap, and so on. A handler is
--   an action on a recorder, which has the totals, the chain info, the rows, and the log. The place
--   where rows go is a parameter: it may fail, and the theorems say what happens then. Corrections
--   is corrections.go, with the tables and registrations of the first network (Corrections/Mainnet,
--   Corrections/Tables), Process gives an event that was read to its handler, and Blocks is
--   ProcessBlock of mux.go, which runs the events of a block in order and gives each its id. There
--   the processing of one event, of a transaction and of its parent are fields of a record.
--   Load has the readers of event.go: load_swap is LoadTendermint of Swap, a loop over attributes
--   with swap_attribute for one of them, and an error is a value that ends it. Dispatch is
--   processEvent, which drops attributes, chooses the reader by the event's type (Dispatch/Read),
--   and hands on what was read. Messages is processTx and msg.go, and Parents is processParentTx,
--   which adds attributes from a transaction's messages; where Go would panic it is `none`.
--   Genesis has the state that a chain begins with, and how LoadGenesis records it.
--   Postings is the specification: a ledger on which each event posts amounts to the depths of the
--   pools, and the modules named Depths prove that the handlers do what the ledger says.
-- - Timeseries: internal/timeseries. DepthRecorder writes the depths that a block changed, and the
--   price of RUNE, Latest has the state after the last block, and Commit is
--   ProcessBlock of timeseries.go, which records a block, flushes its rows, and only then shows its
--   state to readers. Stat is the loop of stat/depth.go that applies the rows of a query to the
--   buckets of a period.
-- - Sync: internal/fetch/sync, which brings the blocks. Chunks is the search of the block store's
--   folder for the file of a height, Store the reading of blocks from it, and Stored the conversion
--   of a block's results to the types that are stored (blockstore). Node fetches blocks from a node
--   in batches and checks the answers (chain/chain.go), Iterate takes the blocks from the store as
--   long as it has them and then from the node (iterator.go), CatchUp and KeepInSync are the loops
--   of sync.go that hand them on. What a file holds and what the node answers are parameters, which
--   act on a world outside.
-- - Tests: the theorems at concrete inputs.
--
-- Computation in floating point is not modelled: a float is its bit pattern, and the operations on
-- it are parameters. The loops of the modelled code run over lists and end with them, so no fuel is
-- needed except for printing a number, where the number itself is more than its count of digits,
-- for the coins of a donation, where each round takes at least a byte, for the search of a chunk,
-- which has a round for each chunk, and for CatchUp, which has a round for each height up to the
-- final one and one more; they are shown to be enough. KeepInSync runs until it is stopped, so its
-- number of rounds is an argument.
-- Go's loops over maps have no fixed order: where the order can show, it is an argument.
--
-- Not modelled: the SQL queries that the API answers from, HTTP, the WebSocket server, the
-- corrections of the test networks, and that of a block's time with which ProcessBlock of mux.go
-- begins (the block of the model has its corrected time). Of internal/fetch/sync: the writing of the block store, its
-- download, and the comparison of both sources of blocks, which is off unless a flag is set.
pub mod Base
pub mod Db
pub mod Util
pub mod Record
pub mod Sync
pub mod Timeseries
pub mod Tests
