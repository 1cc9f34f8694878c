-- ===== src/Lib.antt =====
-- teler, an Ethereum execution node that keeps its world state as layers of flat values.
--
-- The EVM runs the transactions of a block on a mutable world state (worldstate/mutablestate_impl.go).
-- It loads accounts (worldstate/mutableaccount_impl.go) from the state of the block's finished
-- transactions (worldstate/tempcommitted_impl.go), which stands on the layer of the parent block.
-- Each change records a closure in a journal; Snapshot marks the journal and RevertToSnapshot calls
-- the closures down to the mark. Finalise hands the accounts over to the temporarily committed
-- state. The blocks, with the forks at each height, stand in the chain's datastore
-- (blockchain/blockchain_impl.go): AddBlock adds one, SetHead makes one the head, rewrites which
-- blocks are canonical, and prunes.
--
-- Base: what the modules share. Numbers are the native ones; a uint64 wraps where the source's does,
-- a Go map is a function into Option. Types: types/types.go and the third-party functions that the
-- node calls, which are parameters.
-- Worldstate.Layer: the readers of a layer, a parameter of what stands on it.
-- Worldstate.Account: mutableAccountImpl. Object has the record, the reads and the statements of the
-- closures; Setters has the setters, each with its closure as a list of statements; Finalized has
-- GetFinalized and Copy. A function that panics returns an Option. The other modules are proofs.
-- Worldstate.Committed: tempCommittedState. The order in which Go visits a map is an argument.
-- Worldstate.Mutable: mutableStateImpl. State has the record, the journal and each closure as data;
-- Accounts, Transaction and Snapshots have the operations. Operations has them as data with a step
-- function, and Calls has the nesting of calls with their snapshots. The other modules are proofs.
-- Worldstate.Archive: layeredWorldStateArchiveImpl (worldstate/statearchive_impl.go), the layers that
-- are in memory; a layer is a value of a parameter type.
-- Worldstate.Layered: the layers over the persisted state (worldstate/layeredstate_impl.go and
-- worldstate/persistedstate_impl.go). Reads and Readers have the reads through the caches, whose
-- package is a parameter; Tree has the tree of layers with AddChild, DestructChild and Destruct; Prune
-- has HandlePrune; Restart has the start from the datastore; Commit has Commit of the temporarily
-- committed state (worldstate/tempcommitted_impl.go), which makes a layer and prunes, with
-- IntermediateRoot and Commit of the mutable state over it in Block.
-- Statestore: the datastore under the persisted state (statestore/statestore_impl.go), with the batch
-- that takes a layer log over in Persist (statestore/txn.go) and the clearing of the slots of versions
-- that are gone in Collect (statestore/routine.go), which runs beside the batches. Genesis has the
-- state of the genesis block (LayerLogFromGenesis of types/types.go).
-- Blockchain: blockchainImpl. Chain has the record with the contents of the datastore and the
-- queries; Add has AddBlock; Head has SetHead and tryPrune. Whether a commit of the datastore goes
-- through is an argument.
-- Backend: BackendImpl (backend/backend_impl.go), which imports a block: the processor, the validator
-- and the archive are behind an interface, the store of blocks is the one of Blockchain.
-- Sync: BackwardSync (sync/sync.go), from a target back to a block that the node has.
-- Worldstate.Samples, Statestore.Samples, Worldstate.Layered.Samples and the modules named Tests or
-- BlockTests have examples.
--
-- The loop of SetHead over the ancestors is on fuel, which begins one above the height of the new
-- head: each turn goes down one height. The start of the node recurses over the layers on fuel, and
-- the depth of the stored tree is enough. BackwardSync counts its attempts itself. The other loops are
-- structural, or go once over a list.
--
-- Not modelled: the byte encodings, contexts, timeouts, locks and logging; the hooks of a tracer,
-- which change nothing; the errors of the datastore other than a missing key, a failed commit
-- and the failing Put of the tail; the overflow of the snapshot ids, which are ints.
-- SetStorage and SelfDestruct6780 are modelled but are not operations of Operations: the closure of
-- the first does not give back what it changed in all cases, and that of the second is lost.
-- Copy of the states above the layers, ForwardSync with its channels, the block
-- processor and the validator, the RPC server and the command line are not modelled.
pub mod Base
pub mod Types
pub mod Worldstate
pub mod Statestore
pub mod Blockchain
pub mod Backend
pub mod Sync
