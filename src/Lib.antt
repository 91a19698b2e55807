-- ===== src/Lib.antt =====
-- Verification of the LoRaMapr receiver.
--
-- The receiver takes position events from LoRa mesh radios, keeps each as a normalized delivery in
-- a durable outbox, and sends the outbox to the cloud. Modelled are the outbox and its writer, the
-- dispatch to the cloud, the durable state of the receiver, its pairing with the cloud, the
-- rotation of its installation, the attestations of the cloud's clock, the comparison of release
-- versions, the native serial protocol of Meshtastic devices, the frames of the MeshCore serial
-- line, and the leases on serial devices.
--
-- How the parts interact: an adapter stages a delivery in the engine (internal/outbox/engine.go);
-- the one writer goroutine of the engine enqueues it in the store (internal/outbox/store.go) and
-- runs all other changes of the store. The dispatcher (internal/receiverevents/dispatch.go) asks
-- the engine for the next due delivery, sends it, and deletes, retries, quarantines or pauses it
-- by what the cloud answers. The pairing manager (internal/pairing/manager.go) takes a code from
-- the user and moves the durable state (internal/state/state.go) through the phases of the
-- pairing; before a bound installation is paired again, the rotator of the service
-- (internal/runtime/installation_rotation.go) quarantines the deliveries of the old identity in
-- the outbox and gives the state a new one, by a journal in the outbox.
--
-- Files:
-- - Base and its children: Go's results, strings and sorted buckets; Base.Decimal is strconv's and
--   fmt's decimal numerals.
-- - Outbox.Types: internal/outbox/types.go. Outbox.Platform: encoding/json and bbolt as a record
--   of operations and laws, the parameter of the whole store. Outbox.Listed is a value of it that
--   runs.
-- - Outbox.Keys: dueKey and dueTimestamp. Outbox.Db: the buckets, the counters, decodeDelivery,
--   writeCounters. Outbox.Store: the handle, update, view, Close.
-- - Outbox.Attempts: NextDue, updateDelivery, MarkInflight, Retry, Get. Outbox.Enqueue: Enqueue,
--   invalidateReconciledBinding. Outbox.Prune: PruneQuarantine, pruneQuarantineTx.
--   Outbox.Quarantine: Quarantine, QuarantineByReceiver, Delete and the loop over matches that
--   three methods have. Outbox.Pause: PauseDelivery, DispatchPause, ClearResolvedPause,
--   ResolveDeliveryCollision. Outbox.Reconcile: ReconcileBinding. Outbox.Rotation: the four
--   methods on the installation rotation. Outbox.Open: Open without its file handling, initialize,
--   resetInflight, rebuildCounters. Outbox.Statistics: Stats.
-- - Outbox.Accounts, Effects, Bulk, Moves, Matching, Pruning, Index, Validity: the lemmas of the
--   invariant. Outbox.Transactions: what a transaction that succeeds has done. Outbox.Operations:
--   the methods that change a store as one type, and runs of them. Outbox.NextDue, Picks,
--   Separation, Acceptance, Collisions: what single methods do.
-- - Outbox.Engine: NewEngine, TryStage, run, write and Close as steps of an engine; Runs has the
--   reachable engines, Inversion, Staging and Draining the proofs.
-- - Dispatch.Classify: Classify, isBindingCode, normalizedReason, failureFromError, retryDelay.
--   Dispatch.Once: DispatchOnce. Dispatch.Delays, Runs, Standing, Stops, Acks: their proofs.
-- - Update.Semver: internal/update/semver.go; Update.Order: its proofs.
-- - Meshcore.Framing: internal/meshcore/framing.go; Frames and Writes: its proofs.
-- - Leases: internal/protocoladapter/lease.go, with the walk of normalizeDevicePath over the file
--   system as a parameter; Leases.Exclusion: its proofs.
-- - Clock.Types and Clock.Samples: the types, BoundSample, Add and Envelope of
--   internal/clockattestation/clock.go; Clock.Durations and Envelopes: their proofs.
-- - State.Types: the data of internal/state/state.go. State.Store: Update, Save,
--   normalizeGenerations and credentialFingerprint. State.Migrate: migrate, ensureDefaults and
--   Open of a file that decodes. State.Generations, Updates, Defaults, Opening: their proofs.
-- - Pairing.Types: the manager, its identity, the cloud client's types and IsRetryable
--   (internal/cloudclient/client.go). Pairing.Lifecycle: SubmitPairingCode, ApplyLifecycleChange,
--   ResetPairing. Pairing.Attempts: the updates of the state, the errors and the delays.
--   Pairing.Process: Process and what it calls. Pairing.Coherence, Steps, Invariant, Calls,
--   Diagram, Completion: their proofs.
-- - Runtime.Rotation: internal/runtime/installation_rotation.go; Runtime.Completed, Rotated,
--   Coherence, Repairing: its proofs, the last with the rotation as the rotator of the pairing
--   manager. Outbox.Journals: what the methods on the journal read and leave.
-- - Meshtastic.Protobuf: decodeProtoFields, decodeProtoVarint, encodeProtoVarint and fieldUint32
--   of internal/meshtastic/native_serial.go; Varints, Fields, Wire: their proofs.
--   Meshtastic.Scanner: the scanner of frames, buildNativeFrame; Meshtastic.Frames: its proofs.
--   Meshtastic.Decode, Home, Status: decodeNativePacket, the configuration and channel summaries,
--   decodeNativeFrame, and of adapter.go mergeNodeIDs and mergeHomeNodeConfig.
-- - The modules named Tests hold concrete inputs.
--
-- Conventions: a write of the state ends before the rename of its file, after it without the sync
-- of the directory, or well, by a parameter of the call; each call takes the readings of the clock
-- that it makes. An instant is the number of nanoseconds since year 1, so that Go's zero time is
-- 0, and a duration is a number of nanoseconds that is not negative, but in Clock, where
-- differences of times may be negative, its 64 bits. A string is the list of its code points, as
-- all strings of the program are valid UTF-8, whose byte order is that of the code points. Go's
-- unicode.ToLower and unicode.ToUpper are parameters. An int64 that the code lets become negative
-- is a difference of two numbers (Signed), and writeCounters refuses it as in the source; counters
-- and sequence numbers have no upper bound, since the limits of the configuration keep them far
-- below 2^63. The eight bytes of a due key do wrap. A transaction is a function from a database to
-- a result with the database that it commits; an error commits nothing, as bbolt rolls back. An
-- error is its sentinel, without the text around it. The cursor of pruneQuarantineTx visits every
-- key, also after a deletion, as that of bbolt 1.3.11 does. A phase of the rotation journal is one
-- of the four constants.
--
-- Loops are recursion on the list they range over. The loop of decodeProtoFields has the number of
-- bytes as its fuel, that of encodeProtoVarint ten bytes; Meshtastic.Protobuf.Fields and Varints
-- prove that it is enough. The loop of writeAll has fuel, the number of bytes, and decimal
-- numerals have fuel above the number; Meshcore.Writes and Base.Decimal prove that it is enough.
-- Goroutines are interleavings of the steps of Outbox.Engine: the writer's receive, its Enqueue,
-- the release of the bytes and the send of the result are separate steps, between which other
-- goroutines may stage, take results or close. A dispatch is modelled as a run on the store with
-- no other writer in between.
--
-- Not modelled: the files of Open of the outbox (directories, checkIntegrity, recoverCorrupt), the
-- decoding and the repair of the state file, the parsing of a clock attestation, the reading of
-- serial devices, contexts and logging, and the components that no file above names; they are
-- input and output, glue, or left for later.
pub mod Base
pub mod Outbox
pub mod Dispatch
pub mod Update
pub mod Meshcore
pub mod Meshtastic
pub mod Leases
pub mod Clock
pub mod State
pub mod Pairing
pub mod Runtime
