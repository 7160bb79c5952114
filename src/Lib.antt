-- ===== src/Lib.antt =====
-- A subnet runs two services. The matcher (internal/matcher) collects bids on intents and assigns
-- tasks. Validators (internal/validator, internal/consensus) check execution reports and agree on
-- checkpoints: a leader proposes a header, validators sign it, and a header with enough signatures
-- joins the chain that each node keeps. This library models the logic of both and proves what makes
-- it correct.
--
-- The files and the code that they model:
--
-- Prelude, Map: shared helpers: Boolean tests, lists over native numbers, and Go maps as association
-- lists.
-- Validators: ValidatorSet of internal/types/types.go with its thresholds; Members, Threshold, Index
-- and Weight hold its laws.
-- Bitmap: SetBit, BitIsSet and CountBits of internal/consensus/checkpoint.go.
-- Consensus: the states of internal/consensus/state.go, and below it
-- Consensus.Fsm: internal/consensus/fsm.go and threshold.go;
-- Consensus.Leader: leader.go and leader_tracker.go;
-- Consensus.StateMachine: state_machine.go;
-- Consensus.Cometbft: cometbft/abci.go;
-- Consensus.Merkle: merkle.go; Consensus.Continuity: chain.go; Consensus.Chain: chain_manager.go.
-- Bytes: byte slices, their order, sorting and hexadecimal text.
-- Crypto.Hasher, Crypto.Merkle: internal/crypto/checkpoint.go.
-- Checkpoint: CheckpointHeader of internal/types/types.go with its canonical hash.
-- Reports: internal/validator/report_validator.go, the types; Reports.Rules, the checks in the order
-- in which the code makes them; Reports.Batch, ValidateBatch.
-- Raft: internal/consensus/raft/raft_fsm.go and raft_log.go.
-- Bids: internal/matcher/bidbook.go.
-- Matcher: the state of internal/matcher/server.go; Matcher.Windows, Submission, Matching and Tasks hold
-- its operations and Matcher.Strategy internal/matcher/bid_strategy.go; Invariant, Selection, Batches,
-- Deadlines, Fates and RunnerUps hold its laws.
-- Assignments: internal/matcher/assignment_manager.go; Laws holds what its calls keep.
-- MatchingEngine: internal/matcher/matching_engine.go.
-- TaskManager: internal/matcher/simple_task_manager.go; Passing and Failures hold its laws.
-- Node: internal/validator/handlers.go, on top of Consensus.StateMachine and Consensus.Leader.
-- Examples: the theorems at concrete inputs.
--
-- An operation is a function with the source's name in snake case. It takes the state and answers
-- the new one, with an error as a value; where Go panics the answer is `none` or `panicked`. A call
-- that holds its lock throughout is one step. HandleFinalized, which gives the lock up to submit, is
-- two steps with other calls between them, and a batch of bids, which takes the lock for each bid,
-- meets at each bid what other calls made of the server. The clock, SHA-256, the codecs, the signature verifier and the storage are
-- parameters. Numbers are natural numbers; sums and products of uint64 wrap where the code can reach
-- them.
--
-- Four loops take fuel: the set bits of a byte, for which eight rounds are enough; the levels of a
-- Merkle tree, for which the number of leaves is enough; the loop of GetChainSegment, for which
-- the length of the range and one more is enough except for a range that ends at the
-- largest epoch; and the attempts of a task manager to send a task, for which the attempts up to the
-- first one after the deadline are enough.
--
-- Not modelled: the gRPC services, the storage engine, ECDSA, the root layer and blockchain clients,
-- configuration, logging and metrics, which are input and output or calls of libraries;
-- the task distributor of the matcher, and the loops of the
-- validator's node.
pub mod Prelude
pub mod Map
pub mod Bytes
pub mod Bitmap
pub mod Validators
pub mod Crypto
pub mod Checkpoint
pub mod Consensus
pub mod Reports
pub mod Raft
pub mod Bids
pub mod Matcher
pub mod Assignments
pub mod TaskManager
pub mod MatchingEngine
pub mod Node
pub mod Examples
