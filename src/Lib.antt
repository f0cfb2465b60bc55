-- ===== src/Lib.antt =====
-- tacklr: an agent harness whose turns run as durable steps.
--
-- A session takes wakes (prompts, answers, ends of jobs, stops). A prompt starts a turn: the turn loop asks
-- the model, runs the tool calls of its reply as a round, and commits, until the model answers without a
-- call. A call may park on a question to the user or wait on a background job. While a round runs, its
-- calls write to their own bodies only; the round's commit applies the writes to the session, answers
-- each call with a message, and puts the round into the context window, which is kept under its size.
--
-- The files and the code that they model (paths from the repository's root):
--   Orchestrator/State         the session's state and wakes: session/orchestrator/turn.go (State, start, Steer,
--                              queueState), session/orchestrator/carry.go, session/session.go, session/types.go,
--                              session/event.go, drive.go (CommitIn)
--   Orchestrator/Runtime       the interface Runtime of session/orchestrator/turn.go. A runtime is a record of
--                              functions over a world of its own, and `Sys` is a session's state with that world.
--   Orchestrator/Jobs          jobEnded, jobMessage, jobIDs, jobRuns, cancelJobs, startJobs of turn.go
--   Orchestrator/Rounds        runs, unknownAnswer, waits, record of turn.go
--   Orchestrator/Turn          drive of turn.go with its closures; pump of session/orchestrator/session.go
--   Orchestrator/Session       Run, handle and the rest of session/orchestrator/session.go
--   Call                       toolcall.go, drive.go, interrupt.go, runtime_children.go: calls, rounds, parks
--   CallContext                call.go: what a running tool reads, writes, parks on and starts
--   SessionManager             session_manager.go: the committed state, and `apply` of a call's writes
--   Permissions                session_permissions.go
--   Plan                       the plan tools of builtins.go; Plan/Store is session_plan.go
--   Steps                      RunCall, executeToolCall and commitReplyRound of durable_steps.go; Steps/Rounds is
--                              commitRound and applyEffect of agent.go; Steps/OnCall is
--                              the middleware of tool_runner.go
--   Window                     window.go: measure and trim; Window/Fit: collapse, Fit, Refit, InstallPlan, HandOff
--   Mounts                     ApplyAuth of session/internal/auth.go, and the alias of a binding of
--                              vfs/mount/mount.go; Mounts/Turns is BindingsForTurn
--   Checkpoint                 the rows and Diff of session/checkpoint.go; Checkpoint/Store is MemoryStore of
--                              session/snapshot.go
--   Chunks                     vfsindex/chunk.go: the chunks that the file index splits a file into
--   Documents                  vfs/document.go (the text body) and lineStartsOf of vfs/rich.go; Documents/Windows is
--                              vfs/lines.go, Documents/Blocks is vfs/structure.go with FindBlock and BlockReplaceSpan
--   Writes                     vfs/mutate.go on text bodies, with the revisions of vfs/session.go and vfs/route.go; Writes/Paths
--                              is vfs/path.go. The backends and the other bodies are a record of functions, `Files`
--   RemoteFiles                vfs/ranged.go: reads of a remote object through a window
--   Cells                      vfs/tabular.go: the addresses of cells, and rows as text; Cells/Sheets: findSheet;
--                              Cells/Grids: the text of a range
--   EventLog                   MemoryEventLog of session/eventlog.go, and the tail of a subscriber
--   Message                    message/message.go and validate.go
--   Failure                    the error sentinels of types.go, interrupt.go, session/types.go, vfs/errors.go
--   Base                       byte texts, maps, lists, integers, trimming of white space
-- The other children hold lemmas, named for what they are about, and the modules Tests hold examples.
--
-- Conventions. A Go string is a list of bytes, a map an association list, a nil pointer `none`. A method on
-- state is a function from the state, and a lock makes it one step. A value of type `any` is what a JSON text decodes to, or another, by a name. An error is its text with the
-- sentinels that `errors.Is` finds in it; texts leave out the values that a format quotes into them.
--
-- Fuel. `drive`, `turn_loop` and `pump` loop on events of the world, so they take fuel, and `none` says that
-- it ran out or that the code panics; three passes per request to the model, and three more, are enough
-- for a turn that no wake disturbs. `trim_loop` takes as many passes as the round's results have bytes,
-- and one more: each pass keeps less of a result. `read_loop` takes one pass for each byte asked for, and each
-- reads one at least. `decimal` takes one more than the number.
--
-- Not modelled: logs, spans and what a step sends to the client; JSON encodings, and with them what the
-- rows of a checkpoint hold; the model's and the runtimes' side (providers, Temporal, durable objects, SQL), which
-- are parameters; the file systems, the index, the memory, the servers and the tools over them.
pub mod Base
pub mod Failure
pub mod Message
pub mod Plan
pub mod Permissions
pub mod Call
pub mod Mounts
pub mod Orchestrator
pub mod SessionManager
pub mod CallContext
pub mod Steps
pub mod Checkpoint
pub mod Chunks
pub mod Documents
pub mod Writes
pub mod RemoteFiles
pub mod Cells
pub mod EventLog
pub mod Window
