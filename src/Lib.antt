-- ===== src/Lib.antt =====
-- Fast Spider: a Hub that routes work to Nodes, the clients on a user's machines. A client asks the
-- Hub for a capability of a Node; the Hub finds the Node's connection in its registry, sends the
-- request and waits for the response; the Node runs the work as a job and keeps its events for those
-- who watch it.
--
-- Parts and files (paths of the source are from the repository's root):
--
--   Hub/Connection       internal/hub/registry/registry.go, type Connection. The lifetime channel, the
--                        table of pending calls, WriteJSON, ReadJSON, Close, MarkLost, DeliverResponse.
--   Hub/Connection/Calls Connection.Call, cut at the points where other goroutines can run; a list of
--                        events is one interleaving of calls, deliveries and losses.
--   Hub/Registry         internal/hub/registry/registry.go, type Registry: Register, Remove, Touch,
--                        SetCapabilities, Get, List, CloseMachine, CloseStale. The map's pointers are
--                        addresses in a heap of connections, which the serving goroutines share.
--   Hub/RegistrationGuard  internal/hub/server/oauth_registration_limiter.go: allow.
--   Node/Jobs            internal/node/jobs.go: a job's event log and log file (appendEventLocked), its
--                        end (finish, setStopReason) and its snapshot (snapshotAfter).
--   Node/Jobs/Manager    internal/node/jobs.go, type JobManager: StartExecution from its first lock to
--                        its return, the end of runJob, cleanupLocked, Cancel, CancelAll, JobLog.
--                        Manager/System has the starts and the goroutines, and a list of events is
--                        one order of their critical sections.
--   Node/Jobs/Spec       internal/node/jobs.go, validateShellSpec.
--   Hub/Results          internal/hub/core/result_pool.go and the calls on results of
--                        internal/hub/store/store.go. Results/Rows are the tables, Results/Store the
--                        statements and transactions, Results/Service the requests.
--   Node/FileEdit        internal/node/file_edit.go, file_edit_atomic.go, pathguard.go: fileEdit from the
--                        decoded request to the write. FileEdit/Ranges are the places of the edits and the
--                        new text, FileEdit/Plan the checks, FileEdit/Edit the write and the answer,
--                        FileEdit/Diff the preview's diff, FileEdit/Bytes and Newlines the texts.
--   Releases             internal/releaseinfo/release.go: the manifest, its check and its signature
--                        (Releases/Manifest), the versions and their order (Releases/Version).
--   Backups              internal/opsbackup/prune.go: the pruning of the backups made before releases.
--   Hub/Notifications    internal/hub/store/store.go: the calls on notifications of finished tasks,
--                        with claims that are leases. Notifications/Enqueue stores and replaces them.
--   Agent/Cache          internal/agent/cache.go: the bounded cache with expiry.
--   Prelude              tests, lists and dictionaries that all parts use.
--   Tests                runs at concrete inputs.
--
-- How the code is read. A method that changes its receiver returns the new record. What a
-- method does under a mutex is one step; what it does after it gave the mutex back is another one
-- where a property over interleavings needs it (the farewells of CloseMachine and CloseStale, the slot
-- that a failed start gives back). A Go map is a list of entries with distinct keys, in any order, so that what is
-- proved holds for every order in which a `range` meets them. int and int64 counters are natural
-- numbers: each is a count, a byte total or a generation that only grows by one, and none comes near
-- its width. A time is a number of nanoseconds after Go's zero time. The loops are recursions on a
-- list, but for appendDiffLines, whose fuel is the length of the value, as every round takes a byte.
--
-- What is not under src/ is an argument: whether the websocket took a frame, what the log file's
-- Write and Close answered, what Wait reported, what the clock read, how a time is printed, the
-- copying function of the cache, what the file system answers and what utf8, sha256, base64, ed25519
-- and filepath compute. So are what the job store (internal/node/jobs_persistence.go)
-- answers and whether a process could be prepared and started. Of these are assumed: io.Writer's promise
-- that no more is written than was given; that a number is printed on one line, each differently; and
-- that ed25519 accepts its own signatures and base64 decodes what it encoded.
--
-- Not modelled: the HTTP, MCP and web layers, the SQL store, process control, the browser, Git and
-- search runners, the user interface and the commands, which are input, output or glue; the store of
-- the jobs; collaborations, artifacts and accounts.
pub mod Prelude
pub mod Hub
pub mod Node
pub mod Agent
pub mod Releases
pub mod Backups
mod Tests
