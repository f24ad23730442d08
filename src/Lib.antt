-- ===== src/Lib.antt =====
-- The server of the popcorn images: a Go program in a container beside a Chromium, which records
-- the screen with ffmpeg, keeps the container from being scaled to zero while it works, changes
-- Chromium's enterprise policy and command line flags, gives input to the screen by xdotool, runs
-- processes, and reads, changes and watches files.
--
-- Parts and files
-- - Base: texts as lists of code points and the operations of package strings, Go maps as
--   association lists, errors, path/filepath, int.
-- - ScaleToZero: server/lib/scaletozero. The Unikraft controller writes + and - to a control file,
--   Debounce is DebouncedController, which counts the holders, Once is the Oncer that a recorder
--   uses, Middleware holds the controller while a request is served. What the control file answers
--   is an argument of each step.
-- - Recorder: server/lib/recorder/ffmpeg.go. Arguments are FFmpegRecordingParams and ffmpegArgs;
--   Recorder is the record FFmpegRecorder with the file that it writes; Session is Start, Stop,
--   ForceStop, Recording, Delete and waitForCommand, cut where the code gives up its mutex, so that
--   a list of events is an interleaving; Manager is FFmpegManager. What ffmpeg does with a signal
--   is an argument.
-- - Recordings: the handlers of server/cmd/api/api/api.go over the manager.
-- - Json: JSON values, the decoding and encoding of strings, and the folding of member names of
--   encoding/json.
-- - Policy: server/lib/policy/policy.go and overrides.go. Document has the custom decoding and
--   encoding of Policy; Overrides is the check and the merge of a request's policies.
-- - Flags: server/lib/chromiumflags/chromiumflags.go and, of server/cmd/api/api/chromium.go, the
--   handler that merges flags into the flags file.
-- - Devtools: server/lib/devtoolsproxy/proxy.go. Upstream is UpstreamManager as a state machine,
--   Filter the filter of the restricted endpoint.
-- - Config: server/cmd/config/config.go.
-- - Computer: server/cmd/api/api/computer.go and xdotool.go, the input actions. An action is a
--   computation over the history of the commands that it gave to xdotool; Keys, Mouse, Click and
--   Drag are the actions, Batch is BatchComputerAction, Handlers the endpoints. The record Env
--   answers for the outside at each history: xdotool, the screen, cancellation, and the points of a
--   trajectory, which server/lib/mousetrajectory computes with floats and random numbers. Triple
--   has the rules by which Released, Pointer and Dragging follow an action on all its branches.
-- - Process: server/cmd/api/api/process.go. Command is buildCmd and ProcessExec, Spawning is
--   ProcessSpawn; Table has the handles in a store by their id, the ids that s.procs lists, and the
--   steps of the goroutines that wait for a process and read its output, so that a list of events
--   is an interleaving; Requests are the other handlers. A uuid does not repeat.
-- - Archive: Unzip of server/lib/ziputil/ziputil.go, with its file operations as a list.
-- - Display: server/cmd/api/api/display.go. The viewport override and the resizes of Xvfb in the
--   background are a state machine; Resolution reads and sets a resolution, Segments splits the
--   recordings across a resize, over Recorder and Recordings, and Patch is PatchDisplay. The size
--   that Xvfb runs with behind a resize is an answer of the outside, apart from resizeXvfb's error.
-- - Files: the handlers of server/cmd/api/api/fs.go that read and change files, as computations
--   over the calls that they make of the operating system, with the outcome of each; Os answers for
--   it. Requests says which status the outcomes call for. Watches are the directory watches, with
--   the goroutine of each as a state machine, which leaves its loop when the watcher was closed or
--   fsnotify fails by itself; Uploads the multipart uploads, over Archive, and the downloads.
-- A start request takes the recorder's oncer, which holds the debounced controller that requests
-- hold as well, so ScaleToZero.Middleware and Recorder.Balance run both on one controller.
--
-- How it is modelled
-- State is passed on explicitly. A part that a mutex guards is one step. Errors are values: none of
-- an Option Error is nil. Numbers are natural numbers or integers without a bound; no property
-- depends on an overflow of int. A JSON text is the value that it spells, so an object's members
-- keep their order and repetitions. Loops are structural recursion over lists, and the shutdown
-- phases a list too, so nothing runs out of fuel; only itoa counts the digits down.
-- The rounded quotient of generateRelativeSteps is exact, as the float quotient is while its
-- operands are below 2 ^ 31 and 2 ^ 20.
--
-- Not modelled
-- The bodies of log messages, timeouts as durations (a wait is an answer: ended or not), the
-- encoding of JSON as text, the table of policies (server/lib/policy/policy_registry.go, an
-- argument), the restart of Chromium (an answer), the packing of directories and tar with zstd
-- (server/lib/zstdutil and ZipDir, arguments), TakeScreenshot and the
-- clipboard, and the other handlers and proxies of the server.
pub mod Archive
pub mod Base
pub mod Computer
pub mod Config
pub mod Devtools
pub mod Display
pub mod Files
pub mod Flags
pub mod Json
pub mod Policy
pub mod Process
pub mod Recorder
pub mod Recordings
pub mod ScaleToZero
pub mod Uploads
pub mod Watches
