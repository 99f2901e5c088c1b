-- ===== src/Lib.antt =====
-- A verification library for the Astartis control plane, the C++ program under astartis/.
--
-- The program watches a host and a network, keeps evidence of what it does, and locks itself. Every
-- component is constructed with callbacks and reaches the others through them only: each writes to
-- one hash-linked audit chain; the threat state machine and the rule engine engage one WORM write
-- lock; the version store asks that lock before a write; the unlock protocol lifts it after a quorum
-- of signed votes, each of which needs an access token.
--
-- Where the parts are (paths from the root of the repository):
--   Audit       astartis/core/audit_chain: AuditChain as a record with the list of its entries;
--               add_entry, verify_chain, get_entry, tamper_entry_for_testing
--   Worm        astartis/core/worm_lock: WormLock, trigger_lockdown, unlock, is_locked
--   Threat      astartis/core/threat_level: ThreatStateMachine, observe_signal, force_tier
--   Rules       astartis/core/rule_engine: RULE-01 to RULE-05 over a Scene, which is the engine, the
--               state machine that it refers to and the outside
--   System      astartis/bridge/astartis_bridge.cpp: make_audit_adder and the callbacks of main, with
--               g_worm and g_audit as the record World
--   Tokens      astartis/core/access_token: TokenStore, grant, revoke, check_access
--   Crypto      astartis/core/crypto_identity: the signed message and verify_signed_request
--   Unlock      astartis/core/unlock_protocol: UnlockProtocol in Protocol, cast_vote in Unlock, its
--               steps functions of their own, the earlier calling the later; Ballots has the list of the
--               accepted votes of a session
--   Versions    astartis/core/version_store: VersionStore, write and the reads; Accepted has
--               the list of accepted writes that it stands for
--   Nac         astartis/network_arch/zerotrust/nac_workflow: NACWorkflow, its
--               tables and decisions in Decision
--   ZeroTrust   astartis/network_arch/zerotrust/zerotrust_engine: ZeroTrustEngine
--   Response    astartis/core/active_response: ActiveResponse, serve, check_ioc
--   Pipeline    astartis/pipeline/self_healing_pipeline: run, attempt_auto_fix and the rules
--   Segmentation  astartis/network_arch/segmentation/ssid_config.h
--   Policy      astartis/agents/controller/policy_engine: PolicyEngine
--   Sandbox     astartis/core/sandbox: Sandbox and its operations; Paths has the path guard,
--               Components and Join a path as the list of its components, Files the table of populate
--   Events      astartis/core/event_bus: EventBus, whose handlers may publish in turn; Order has the
--               threads as a step relation
--   Firewall    astartis/core/firewall: FirewallBlocker, its allowlist in Allowlist, with a
--               turn of the expiry thread as a call
--   Quarantine  astartis/core/quarantine: Quarantine
--   Dispatcher  astartis/agents/controller/action_dispatcher: ActionDispatcher over the firewall
--               blocker, the quarantine, the active response and the zero-trust engine; Extraction
--               reads the target from the output
--   Decoy       astartis/core/decoy: DecoyEnvironment over the sandbox
--   Backup      astartis/core/veeam_interface: VeeamInterface
--   Clamd       astartis/core/clamd: ClamdScanner, its bytes on the socket in Stream; Wire is the
--               daemon's side of the INSTREAM protocol
--   Sensor      astartis/core/packet_sensor: PacketSensor, windows of packet entropies and the choice
--               of the adapter; Packets has the entropy and the synthetic packets
--   Chaos       astartis/core/chaos_detector: ChaosDetector, the 0-1 test in Score, the Lyapunov
--               exponent in Lyapunov; a read beyond a vector is none
--   Agents      astartis/agents/controller: agent_controller and the validation of persona_loader;
--               Tasks has the work on one task, Pool the worker threads as a step relation
--   Doubles     the floating-point operations of the two sensors
--   Base, Callbacks, Result  what the others share: Boolean tests, lists, texts, dictionaries, the
--               type of the callbacks and of the exceptions
--   Tests       concrete runs
--
-- How the state is modelled. A member function that changes an object takes the state and returns it.
-- The state behind the callbacks is a type W that each component takes as a parameter; System gives
-- it the chain and the lock. A mutex that is held over a whole call makes the call one step. An
-- exception is a value of Result. A std::map is a list of pairs in the order of its keys, a
-- std::vector a list. A counter of type uint64_t is reduced modulo 2^64; an int that is counted up by
-- one is not, and times in milliseconds stay below 2^63. The entries of a chain and the samples of a
-- window are fewer than 2^31, so that their numbers are the same as an int.
--
-- What stands outside the repository is a parameter: SHA-256, the random generator and the clock of
-- the audit chain (Audit.Host), floating-point numbers (Rules.Floats, Doubles), ECDSA verification,
-- the bytes that RAND_bytes draws and the clock readings of the token store, the unlock protocol and
-- the version store, the disk, the netsh process, std::stod, strtol, the regular expressions, the JSON
-- parser, Winsock and Npcap. Four of these have laws: the WORM port of the rule engine, which System
-- proves of the wired lock; IsReliable, that a socket takes what is sent in order; HasOrder, that no
-- number is below itself and 1.0 is not below 0.0; IsCounting, that the agents' outside writes an
-- agent_task_completed entry only where the controller does.
--
-- The loop of the event bus's worker runs for two turns for each unit of the queue's weight and one
-- more, where an event weighs more than all that the handlers publish on it. The loops
-- that send bytes run for as many turns as there are bytes, since each turn that goes on sends at
-- least one. The rounds of the loops of the chaos detector are counted down from their bounds. Every
-- other loop is a recursion on a list or a text.
--
-- What is not modelled: the JSON commands, threads and output of the bridge, the client of the models
-- and the reader of the ECC files, the agents' estimate of the memory in use, the attribution of
-- attacks, the triage by a model and the reader of the configuration, which are calls of HTTP and of
-- the JSON library with text around them. A rule evaluation runs without another thread's call
-- between its steps, and no handler of the event bus subscribes or unsubscribes while it is called.
pub mod Base
pub mod Callbacks
pub mod Result
pub mod Audit
pub mod Worm
pub mod Threat
pub mod Rules
pub mod System
pub mod Tokens
pub mod Crypto
pub mod Unlock
pub mod Versions
pub mod Nac
pub mod ZeroTrust
pub mod Segmentation
pub mod Policy
pub mod Response
pub mod Pipeline
pub mod Sandbox
pub mod Events
pub mod Firewall
pub mod Quarantine
pub mod Dispatcher
pub mod Decoy
pub mod Backup
pub mod Clamd
pub mod Doubles
pub mod Sensor
pub mod Chaos
pub mod Agents
pub mod Tests
