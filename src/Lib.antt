-- ===== src/Lib.antt =====
-- The consensus core of the COC node: what a block costs, which fork wins, how a block becomes
-- final, how double votes are detected and punished, and how the validator set changes.
--
-- The parts and how they interact. The validator set of node/src/validator-governance.ts gives
-- each node its validators and their stakes. node/src/bft.ts runs one round of propose, prepare
-- and commit per height over them, with a stake-weighted quorum, and its detector records every
-- vote and returns evidence of double votes. node/src/bft-slashing.ts turns the evidence into a
-- penalty on the validator set and a deposit into its treasury. node/src/fork-choice.ts
-- compares the chains that peers offer, and node/src/base-fee.ts gives each block its base fee
-- and its blob gas price. node/src/mempool.ts keeps the pending transactions and picks those
-- for a block by that fee. node/src/peer-scoring.ts keeps the scores of the peers and bans the
-- worst. node/src/rate-limiter.ts bounds the requests that the node's servers accept from one
-- address. services/dispute/penalty-tracker.ts keeps the penalty points of the nodes that store
-- data. node/src/wire-protocol.ts cuts the byte stream between two peers into frames. Around
-- the node, services/challenger/challenge-quota.ts limits the challenges to the nodes that
-- store data, services/verifier/scoring.ts turns what they answered into the rewards of an
-- epoch, services/verifier/nonce-registry.ts lets each challenge be answered once, and
-- services/relayer/epoch-finalizer.ts pays the challengers. node/src/ipfs-merkle.ts gives the
-- proofs of stored chunks that runtime/coc-agent.ts checks. services/common/merkle.ts puts the
-- results into a tree of digests, and services/relayer relays the messages between chains.
--
--   Prelude             names of the libraries, Boolean tests, Eq, lists, text, Map as Dict
--   BaseFee             node/src/base-fee.ts; Bounds for calculateBaseFee, Blob for the blob gas
--   ForkChoice          node/src/fork-choice.ts; Order for compareForks, Selection for the rest
--   Mempool             node/src/mempool.ts: the pool, its indexes, removal and expiry
--   Mempool.Eviction    the same file: partialSelect and evictLowestFee
--   Mempool.Admission   the same file: addRawTx; Index, Shrinks and Capacity for its limits
--   Mempool.Selection   the same file: pickForBlock
--   Mempool.Queries     the same file: getPendingByAddress, getPendingNonce, getAll, stats
--   RateLimiter         node/src/rate-limiter.ts: class RateLimiter
--   PenaltyTracker      services/dispute/penalty-tracker.ts: class PenaltyTracker
--   WireProtocol        node/src/wire-protocol.ts: frames; Decoder for the class FrameDecoder, with
--                       Loop, Feed, Streams, Chunks and Failure for what its calls do
--   PeerScoring         node/src/peer-scoring.ts: class PeerScoring; Score for negative numbers
--   StorageProof        node/src/ipfs-merkle.ts, getProof of node/src/ipfs-unixfs.ts, and
--                       computeMerkleRoot and verifyStorageProof of runtime/coc-agent.ts
--   NonceRegistry       services/verifier/nonce-registry.ts: class NonceRegistry
--   Merkle              services/common/merkle.ts; Proofs for buildMerkleProof
--   RewardTree          services/common/reward-tree.ts; Leaves, Hashes and Proofs for buildRewardRoot
--   Scoring             services/verifier/scoring.ts: weights and buckets; SoftCap for applySoftCap,
--                       Epoch for computeEpochRewards, Isqrt for isqrt
--   Relay               services/relayer/replay-guard.ts, relay-engine.ts and message-types.ts;
--                       Engine for the calls of relay, Once and Overlap for what they do
--   Challenges          services/challenger/challenge-quota.ts in Quota, and
--                       services/relayer/epoch-finalizer.ts in Payment
--   Bft.Quorum          node/src/bft.ts: quorumThreshold, accumulatedStake, hasQuorum
--   Bft.Round           node/src/bft.ts: class BftRound (handlePropose is handle_propose, and so on)
--   Bft.Equivocation    node/src/bft.ts: class EquivocationDetector (recordVote is record_vote)
--   Governance.State    node/src/validator-governance.ts: the state, genesis, penalties, treasury
--   Governance.Proposals  the same file: submitProposal, vote, resolveProposal, executeProposal,
--                       advanceEpoch, pruneProposals
--   Governance.Queries  the same file: getGovernanceStats, getFactionStats, getValidatorIds
--   Governance.Slashing node/src/bft-slashing.ts: class BftSlashingHandler
-- The modules Examples hold the tests and the theorems applied to concrete data. The other modules
-- under a component prove what their names say of it.
--
-- How state and operations correspond. A class is a record of its private fields; a method is a
-- function from that record, and its arguments, to the new record and the result. Names are the
-- source's in this language's spelling. A method's guards are in the source's order; a long
-- method is cut into functions at its early returns (handlePrepare is handle_prepare,
-- record_prepare, check_prepare_quorum and send_commit). A Map is a Dict, an association list
-- in insertion order, in which a write to a present key keeps its place; a Set is a Dict to
-- Unit. bigint and number are natural numbers: stakes, heights, fees and epochs are never
-- negative in the program. Where the source subtracts, a test above keeps the difference from
-- going below zero, or the subtraction is written so that it stops there as the source's branch
-- does; the counter that the eviction of evidence lowers is one in which the entry is counted.
-- Text is a list of UTF-16 code units; toLowerCase is exact on ASCII, which ids,
-- addresses and hashes are. Date.now() is an argument. A thrown error is a value of the type
-- Error. The id of a proposal is the number n of the text proposal-n. A block has the fields
-- that the round reads. The field won of ForkChoice says which argument the winner is:
-- shouldSwitchFork compares references. The scores of peers may be negative and are integers.
-- The decay of penalty points is the exact quotient, rounded down, where the source divides
-- floating-point numbers.
--
-- Events. Bft.Round.Event is what can reach a round, a proposed block, a message or a failure;
-- run takes a list of them in any order and number, and the theorems on rounds are on every
-- such list. Relay.Engine.Event is what happens to the calls of relay, which is asynchronous: one
-- begins, up to its await of the sink, or a waiting one ends, in any order, with the sink's
-- success or its error; handle_all takes a list of these.
--
-- Fuel. The loop of fakeExponential runs on fuel, and none means that it ran out. No bound is
-- chosen beforehand: for every excess there is fuel that is enough, since past the numerator
-- each term is smaller than the one before. The quickselect of the pool runs on one more than
-- the length of its array, since each round leaves a shorter part of it, and the loop of
-- getPendingNonce on one more than the number of nonces, since each round passes one of them.
-- The loop of FrameDecoder runs on one more than the number of buffered bytes, since each frame
-- takes at least the seven of its header. The layers of a Merkle tree are built on the number
-- of leaves, since each layer is half as long as the one below, and isqrt runs on its argument,
-- since its numbers become smaller. All other functions are total as they are.
--
-- Bytes, digests and keys. A byte is a number, a Uint8Array a list of them; what is written to
-- a frame is below 256. Each of the shares of splitBuckets is a natural number where the first
-- two shares are at most 10,000 basis points, as they are by default. The keys of the quota and
-- of the relay's channels are texts with colons between their parts, and are modelled as these
-- parts.
--
-- Parameters: the digest keccak256Hex of the trees, the registry and the relay, the sink of the
-- relay (it forwards or throws), the decoder of raw transactions of the ethers package, and the
-- nonce of an account on chain. None is assumed to have any property.
--
-- Not modelled: the JSON payloads of frames, the file of the replay guard, logging, the pool's
-- gas price histogram, the callback of the slashing handler, signatures (the coordinator fills
-- them in), a negative slash percentage (refused by the constructor) or a fractional one (on which
-- handleEquivocation throws), and the parts of the node
-- around this core (network, storage, RPC, EVM, other services, contracts).
pub mod Prelude
pub mod BaseFee
pub mod ForkChoice
pub mod Bft
pub mod Governance
pub mod Challenges
pub mod Mempool
pub mod Merkle
pub mod NonceRegistry
pub mod PeerScoring
pub mod PenaltyTracker
pub mod RateLimiter
pub mod Relay
pub mod RewardTree
pub mod Scoring
pub mod StorageProof
pub mod WireProtocol
