-- ===== src/Lib.antt =====
-- A verification library of HiveBear, a peer-to-peer network that runs language models over several
-- machines. Paths are from the repository's root.
--
-- The parts of the program and their modules:
--
-- * The coordination server, crates/hivebear-coordinator/src/main.rs. Nodes register, send heartbeats,
--   exchange signals, claim karma and ask for a ranking of peers. `Coordinator` has the state
--   (`CoordinatorState`: four maps) and the handlers of nodes and signals (`register_node`,
--   `heartbeat_node`, `list_peers`, `deregister_node`, `send_signal`, `poll_signals`) with the background
--   round that prunes nodes (`prune`); `Coordinator.Karma` has `claim_karma`, `get_karma_balance` and
--   `matchmake`. `Coordinator.Run` runs a list of timed requests and prune rounds, one at a time, and its
--   children hold what is shown of such histories. `Coordinator.Karma.Race` models two claims whose
--   steps interleave, under the lock on the worker's balance that a claim holds until it returns.
-- * The transport of activations between the stages of a pipeline,
--   crates/hivebear-mesh/src/transport/tensor_transfer.rs and protocol.rs. `Transport.Half` has the two
--   conversions between single and half precision on bit patterns, `Transport.Dtype` the element types,
--   their tags on both sides of crates/hivebear-cli/src/pipeline_handler.rs, and `convert_for_transfer`.
-- * The schedulers that spread a model's layers over peers, crates/hivebear-mesh/src/scheduler.
--   `Scheduler` has what they share, `Scheduler.Greedy` the `GreedyScheduler`, `Scheduler.SwarmAware` the
--   `SwarmAwareScheduler`. Their plans are what a swarm (`Swarm`, crates/hivebear-mesh/src/swarm/mod.rs)
--   holds.
-- * Rebalancing of a swarm after a change of its members, `Swarm.Rebalance` for
--   crates/hivebear-mesh/src/swarm/rebalance.rs; and the router that sends requests to swarms,
--   `Swarm.Router` for crates/hivebear-mesh/src/swarm/router.rs.
-- * The formation of swarms from the known peers, crates/hivebear-mesh/src/swarm/formation.rs.
--   `Swarm.Formation.Models` has the model classes and the configuration, `Swarm.Formation.Candidates`
--   the latencies and the search for candidates, `Swarm.Formation.Members` the loop that assigns layers,
--   and `Swarm.Formation` the rounds and `form_swarms`. The vectors of eligible peers and of flags are
--   one list of slots.
-- * Speculative decoding, `Swarm.Speculative` for crates/hivebear-mesh/src/swarm/speculative.rs: the loop
--   of `stream_tokens`, with the transport and both peers as a parameter (`Network`). A wait that no
--   message ends is told apart from a return.
-- * The running pipeline: checkpoints (`Pipeline.Checkpoint`) and the health of its peers
--   (`Pipeline.Health`), crates/hivebear-mesh/src/pipeline.
-- * The exchange of known peers, `Discovery.Pex` for crates/hivebear-mesh/src/discovery/pex.rs.
-- * What a machine can contribute, `Contribution` for crates/hivebear-core/src/contribution.rs, and the
--   reputation of peers, `Trust` for crates/hivebear-mesh/src/trust/reputation.rs.
-- * Which models a machine can run, crates/hivebear-core/src/recommender: `Recommender.Models` and
--   `Recommender.Builtin` have the table of models, `Recommender.Estimates` the estimates of memory and
--   speed, `Recommender` the choice of a quantization and `recommend`, and `Recommender.Community` the
--   merge of community benchmarks. `Hardware` has the types of crates/hivebear-core/src/types.rs.
-- * The split of a model's layers over GPU, CPU and mesh, `Offload` for
--   crates/hivebear-inference/src/offload.rs.
-- * The choice of an engine for a model and the registry of engines, `Selector` for
--   crates/hivebear-inference/src/selector.rs, and engine/mod.rs beside it.
-- * The spot checks of peers, `Trust.Verification` for crates/hivebear-mesh/src/trust/verification.rs.
-- * The stream of server-sent events that cloud services answer with, `Cloud.Sse` for
--   crates/hivebear-inference/src/engine/cloud/sse.rs.
-- * The parser of STUN answers and the choice of a connection strategy, `Nat.Stun` and `Nat` for
--   crates/hivebear-mesh/src/nat/stun.rs and mod.rs.
-- * Prompts from chat messages, `ChatTemplate` for crates/hivebear-inference/src/chat_template.rs.
-- * `Peer` and `MeshError` have the types of crates/hivebear-mesh/src/peer.rs and error.rs.
--
-- `Prelude` has the shared names: hash maps as association lists (`Prelude.Map`), texts as lists of
-- bytes, and a stable insertion sort (`Prelude.Sort`). A `DashMap` or `HashMap` is an association list,
-- and its order stands for the order of iteration, which the program does not fix.
--
-- A mutable structure is a record that an operation takes and returns; the readings of clocks are
-- arguments. Integers of the machine are natural numbers with the wrap-around of their width written
-- out, as compiled in release mode. Floating-point numbers are a parameter (`Float`): a theorem that
-- needs a law of their arithmetic has it as a hypothesis, and all the others hold for any rounding. The
-- hexadecimal form of a node's key is a parameter as well, and so are the `exp`, the negation and the
-- constant `LN_2` that the reputation uses.
--
-- Fuel: `normalize`, the `while` loop that shifts the mantissa of a denormal, runs on ten steps, and
-- `digits` on twenty. A mantissa that is not 0 has its top bit up after at most ten shifts, since it
-- is a number of ten bits, and a 64-bit number has at most twenty digits. The loop of `stream_tokens`
-- runs on one round more than tokens are asked for, since each round that goes on emits a token, and
-- that of the STUN parser on 512 rounds, each of which moves at least 4 bytes in a buffer of 512.
-- Every other loop is a structural recursion over a list or a number.
--
-- Not modelled: HTTP, sockets, QUIC, tasks and logging, the frame codec and compression (third-party
-- packages), signatures, the inference engines and the protocols of cloud services, the hardware
-- profiler, the registry, the command line and the applications. Of the mesh, hole punching, relays
-- and the worker's message loop are not modelled either.
pub mod Prelude
pub mod Float
pub mod Peer
pub mod Transport
pub mod Trust
pub mod MeshError
pub mod Scheduler
pub mod Swarm
pub mod Contribution
pub mod Coordinator
pub mod Discovery
pub mod Pipeline
pub mod Samples
pub mod ChatTemplate
pub mod Cloud
pub mod Hardware
pub mod Nat
pub mod Offload
pub mod Recommender
pub mod Selector
