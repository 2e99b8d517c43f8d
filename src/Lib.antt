-- ===== src/Lib.antt =====
-- wamr-ext: extensions of the WAMR WebAssembly runtime (threads, sockets, processes, files) and an
-- API that creates, starts and destroys instances of a module.
--
-- The program. An app runs in an instance. The API (src/wamr_ext_api/wamr_ext_api.cpp) keeps a list of
-- instances, each with a configuration, a state and two locks; a thread of its own walks over the list,
-- reports exceptions and drops destroyed instances. The app reaches the extensions by one imported
-- function, WasiExtSyscall, which finds the handler in a table and unpacks the arguments by a
-- signature string (src/wamr_ext_lib/WamrExtInternalDef.h and .cpp). Handlers stand in
-- src/wamr_ext_lib/Wasi*Ext.cpp and convert host errors by Utility::ConvertErrnoToWasiErrno
-- (src/base/Utility.cpp).
--
-- The files.
--   Prelude    names of the libraries, C strings as lists of bytes, std::map as a sorted
--              list, unordered_map as a list of entries, what comes about in every run
--   Errno      Utility::ConvertErrnoToWasiErrno
--   Vm         the runtime's functions on an app's memory, a parameter
--   Syscall    ExtSyscall_* and Invoke; Registry: RegisterExtSyscall and the Init functions;
--              Dispatch: WasiExtSyscall; Unpack: arguments described by the signature alone
--   TempDir    FSUtility::GetTempDir
--   Config     WamrExtInstanceConfig and WamrExtSetInstanceOpt
--   Instance   WamrExtInstance; Memory, WasiArgs, Start: wamr_ext_instance_start; Destroy:
--              wamr_ext_instance_destroy; Loop: LoopCheckInstanceRoutine; Interleave: all of these
--              in any order, one critical section a step;
--              Balance: sequences of calls; FailedStart: a start without memory;
--              Freeing: the end of a destroyed instance
--   LoopThread src/base/LoopThread.h and .cpp; Handles: counts of libuv's handles; Steps: its calls and
--              the loop's actions in any order; Once, Repeating, Stopping, Races: what they come to
--   Api        wamr_ext_init, null handles, wamr_ext_strerror, wamr_ext_exception_get_info; Init: the loop
--              thread that wamr_ext_init starts
--   Module     WamrExtModule: wamr_ext_module_load_by_file and _by_buffer, default options,
--              wamr_ext_instance_create; Laws: what loading releases, and configurations
--   Pthread    InstancePthreadManager; Handles, Spawn, Resources: WasiThreadSpawn; Exit: the end of a
--              thread and DoHostThreadJoin, one section under exitLock a step; JoinEnds; AppExit:
--              DoAppThreadExit; Cleanup, CleanupEnds: CleanupAppThreadInfo, whose joins may not return
--   Exec       handlers as programs that change a world and may return early with an error
--   Socket     WasiSocketExt over a host that is a parameter; Address: socket addresses; Open:
--              SockOpen; Calls: the handlers from SockBind to SockShutdown; Descriptors: who owns a
--              socket of the host; Bytes, Options, OptionLaws: SockGetOpt and SockSetOpt
--              Messages, MessageLaws: SockRecvMsg and SockSendMsg; Interfaces, InterfaceLaws,
--              InterfaceCall: SockGetIfAddrs
--   Poll       WasiPollOneOff (src/wamr_ext_lib/WasiSocketExt.cpp); Timeout: its first loop; Events:
--              what is written; Waits: calls that do not poll
--   Process    WasiProcessExt; Request, Spawn: ProcessSpawn; ActionList, Redirect, Pipes, Spawning,
--              NewChild: what it does; Wait: ProcessWaitPID; Children, Reaping, Waiting, Endless: what
--              it does; Session: sequences of both; Waiters: ProcessWaitPID beside other threads' calls
--   Files      WasiFSExt: FDStatVFS and FDFcntl; Locks: FDFcntl beside the host's fcntl
--   Sysctl     WamrExtSysctl (src/wamr_ext_lib/WasiWamrExt.cpp); Laws: the buffer
--   MiniApp    SplitKeyValue and the options of main (src/wamr_ext_app/MiniApp.cpp); Laws: what they
--              make of the instance; Main, Ends: main beside the loop thread up to the end of the
--              process
--   ThreadName Utility::SetCurrentThreadName and GetCurrentThreadName (src/base/Utility.cpp)
--   Misc       WasiMiscExt
--   Tests      examples of the results
--
-- Conventions. A uint32_t is a number with its wrap-around written out, a pointer is a number and null
-- is `none`. What the runtime, libuv, uvwasi and the host answer is an argument of the definitions.
-- Handlers return their outputs beside the code. Four loops are on fuel. The search for a handle id
-- (Pthread/Handles) has one round for each thread and one more, which is enough where there are fewer
-- threads than ids. The loop of CleanupAppThreadInfo (Pthread/Cleanup) has one round for each in which
-- threads are spawned and two more, which is enough as each round joins all that it found; it gives `none`
-- also where a join does not return. The loops of
-- ProcessSpawn over the app's actions (Process/Request) and of ProcessWaitPID (Process/Wait) have no
-- bound in the source: `none` is a loop that still runs, and what is said of a call holds of every number
-- of rounds. Assertions are compiled out, as in the build's default. Where LoopThread closes a handle twice
-- or the loop with handles, what follows is undefined without them, and its steps end there: Repeating shows
-- that the API's use does not come to that, Races how another use does. The host is POSIX.
--
-- Not modelled: libuv's loop itself, of which LoopThread has what the program does with handles, when it
-- sleeps and what wakes it, and when a timer is due; the argument parser of the command line app; the texts that functions leave for
-- wamr_ext_strerror, which only inform; ids of processes and threads, which are the system's; the
-- third_party directory and build scripts, which are no code of the program.
pub mod Prelude
pub mod Errno
pub mod Vm
pub mod Syscall
pub mod TempDir
pub mod Config
pub mod Instance
pub mod LoopThread
pub mod Pthread
pub mod Exec
pub mod Socket
pub mod Module
pub mod Poll
pub mod Process
pub mod Files
pub mod Sysctl
pub mod MiniApp
pub mod Api
pub mod ThreadName
pub mod Misc
pub mod Tests
