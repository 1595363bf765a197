-- ===== src/Lib.antt =====
-- Soul Room: an edge agent that updates a device over the air, and the control plane that keeps
-- its fleet.
--
-- The control plane (cloud-infra/internal) keeps everything in one store: organizations, users,
-- devices, telemetry, jobs and update campaigns of all tenants, behind one mutex and in one file.
-- A device polls it for jobs, and reports their results; a job of the type `ota_update` carries a
-- request to the OTA engine of the agent (agent/internal/ota), which runs the update as a
-- transaction in phases that survives reboots.
--
-- Base: native numbers, texts with decidable equality, lists, finite maps (Base/Dict, association
-- lists whose order nothing depends on), Go's signed integers (Base/Int), the order of floats
-- (Base/Floats), prefixes and patterns of texts (Base/Patterns).
--
-- Cloud/Model: the records of cloud-infra/internal/model/model.go, with the tenant context, the
-- session and the campaign. Cloud/Store and the modules below it: cloud-infra/internal/storage/
-- store.go. Each method is the function of the same name in snake case, from what the clock, the
-- random generator and the disk answer (`Env`) and the store to its results and the new store;
-- the mutex makes a method one step. A `range` over a map visits the keys in the order that `Env`
-- gives, so that a theorem for any `Env` holds for any order of the visit; where a key must be
-- reached, a theorem asks for it. `saveLocked` is `save_locked`, with its error paths. Jobs,
-- Devices, Organizations, Accounts, Tokens and Campaigns hold the operations; Steps the histories
-- of operations; Invariant, Untouched, Unadded and Isolation what they keep; Visibility what is listed.
--
-- Cloud/Store/Devices/Registry is the registry of devices that one tenant sees, apart from how the
-- store keeps it.
--
-- Cloud/Server and the modules below it: cloud-infra/internal/server/server.go. A handler is the
-- function of the same name in snake case: from the request, its decoded body, what its calls read
-- (`Calls`) and the store to the answer and the new store. Where the code returns early, so does
-- the function; `guarded` is the check of `rbac.Authorize` with its answer, `with_body` the one of
-- `decode`. JSON is decoded outside: a body is what `decode` returns (`Outcome`). Go's library is
-- the record `Library`. Settings also holds cloud-infra/internal/settings/settings.go,
-- and Settings/Loading `Load` of cloud-infra/internal/config/config.go; Accounts
-- `auth.NewSession` and `enrollment.NewToken`; Work cloud-infra/internal/jobs/jobs.go; Metadata
-- `ValidateMetadata` of cloud-infra/internal/ota/ota.go; Protocol cloud-infra/internal/protocol/
-- envelope.go and cloud-infra/internal/telemetry/telemetry.go; Enrollment cloud-infra/internal/
-- enrollment/enrollment.go; Fleet, Rollout and Devices the other handlers; Assistant the actions of
-- cloud-infra/internal/server/assistant.go. Control puts the endpoints behind `withAuth`, but
-- for constant answers and the configuration, the test and the chat of the assistant; Policy,
-- Access, Pilot, Gateway, Accounts/Login, Enrollment/Admission and Assistant/Approved are about
-- them. Cloud/Assistant: `Allow` of cloud-infra/internal/assistant/assistant.go.
--
-- Agent/Ota: the requests of agent/internal/ota/ota.go and `ValidateRequest`. Agent/Engine:
-- agent/internal/ota/engine.go. The adapter, the downloader, the signature checks, the health
-- command, the disk and the system answer through `Ports`; each answer may depend on all calls
-- made so far, that of a write of the file also on the phase to write, since no run writes a phase
-- twice between two calls. Each run of the health command is a call; an agent without a command
-- makes none. `Engine.Run` and `Engine.Execute` are the methods, stage by stage; the modules
-- beside them hold the proofs, by the phase that a transaction is in and the calls made before.
-- The loop of `healthCheck` runs over the outcomes that the time limit leaves, so that it needs no
-- fuel. The file of the transaction is the one of a single update.
--
-- Agent/Config: agent/internal/config/config.go, `Load` as a function of the lines of the file, with
-- `setValue` and `Validate`; the functions of Go's library that read numbers and trim lines are
-- parameters. Reading is `Load`; Validity and Headings are about it.
--
-- Agent/Queue: the offline queue of agent/internal/storage/store.go, whose file is the list of its
-- decoded lines, and `flush` of agent/internal/agent/agent.go. Sizes are natural numbers: their
-- sum stays below 2^63. `sort.SliceStable` is an insertion sort, since a stable sort has one result.
-- Agent/Jobs: the registry of agent/internal/jobs/jobs.go with the file of job states; SHA-256 and
-- JSON are parameters. Cloud/Rbac: cloud-infra/internal/rbac/rbac.go. Cloud/Presence:
-- cloud-infra/internal/presence/presence.go.
--
-- The pilot group of a campaign is a percentage, rounded up, of whole numbers: the floats of the code
-- are exact enough while a campaign has fewer than 2^40 targets. A duration that is a number of
-- hours or minutes is multiplied with the wrap-around of an `int64` (Base/Int).
--
-- Not modelled: the multiplexer and the headers of every answer, the web console, the transport, the adapters and the downloads
-- (calls of the operating system and of the network), cryptography (a parameter where the code
-- depends on it), and `Open`, which reads the file of the store. The attempts of a job are counted
-- modulo 2^64; the uses of a token, which its limit bounds, and the items dropped, of which there
-- are less than 2^63, are natural numbers. A time is the number of nanoseconds since Go's zero
-- time, and a difference of two times is taken to fit in a `time.Duration`.
pub mod Base
pub mod Cloud
pub mod Agent
