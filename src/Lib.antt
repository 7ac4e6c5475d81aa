-- ===== src/Lib.antt =====
-- DistributedDisk: a disk whose blocks are kept twice, on other hosts. The kernel's network block
-- device (nbd) passes requests to a master on this host; for each block the master chooses two of
-- its minions, sends them datagrams, and answers the device; a minion stores blocks in memory and
-- answers the datagrams. Both programs run on one framework: a reactor waits for descriptors, a
-- mediator finds the proxy of a descriptor and lets it parse the request, a factory makes a command
-- of it, and a thread pool runs the command.
--
-- All paths below are under projects/fs_project. Each file opens with the code that it models.
--
-- Parts, with their files and the code:
--   Protocol, with Layout and Wire below it: Request_t, Reply_t and ProtocolTranslator (app_protocol/,
--     protocol_translator/). A message is a record of its fields; `request_bytes` and
--     `bytes_request` are the packed struct in memory, `reply_bytes` and `bytes_reply` likewise.
--   Raid, Raid/Choice: Raid::ChooseMinions (raid/).
--   Minions: MinionData and MinionManager (minion_data/, minion_manager/).
--   Net: the UDP sockets (socket/, udpsocket/). The network is the list of what the coming calls of
--     recvfrom answer; what is handed to sendto is recorded. A list that is used up stands for a
--     call that has not returned (`blocked`).
--   Storage, and Ownership, Contents, Loads below it: StorageManager (storage/), with the heap of
--     blocks and the map from keys to addresses.
--   Minion, and what is below it: MinionProxy, MinReadCmd and MinWriteCmd (minion_proxy1/,
--     of which minion_proxy2/ is a copy, and minion_cmd/). `serve` is one request from the socket to
--     the reply; Minion/Abstract has what a master sees of a minion, and
--     Minion/Process the threads of its process: the mediator's handler, and the pool's threads;
--     Minion/Start has the constructors that its `main` calls.
--   Nbd, and what is below it: NbdProxy (nbd_proxy/nbd_proxy.cpp). The stream socket
--     is the bytes that have arrived and the results of the coming calls of read and write. NbdMaster
--     and what is below it: the older program nbd_proxy/nbd_proxy_master.cpp, on the same state.
--   Connection, with Mounting below it: Master::InitConnection. The commands that are given to the
--     shell are recorded.
--   Master, and Asking, Reads, Writes below it: Master, ReadCmd and WriteCmd (master/master.cpp,
--     commands/). Disk puts a ReadCmd and the minion that it asks together.
--   Config, Startup and what is below them: ConfigManager (config_manager/) and the constructor of
--     Master with StringToIp (master/master.cpp).
--   Factory, CmdData, Mediator, Reactor and what is below them: factory/, mediator/ and reactor/.
--     Framework, with Turns, Start and Ready below it, puts them together (framework/).
--   Server, with Sockets and Open below it: the ping server on the reactor (reactor/reactor_server.cpp).
--   Queue, ThreadPool and what is below them: waitable_queue/ and thread_pool/. ThreadPool/Stop,
--     Stopping, Ending and Returning are about ThreadPool::Stop and the destructor.
--   FutureTask, with Values below it: the tasks that run a function (thread_pool/future_task_impl.hpp).
--   Dispatcher, Monitor and what is below them: dispatcher/ and dir_monitor_dllloader/. PlugPlay, with
--     Stopping and Lifetime below it: how the monitor and the loader begin and end (also framework/).
--   Logger, Singleton and what is below them: logger/ and singlton/.
--   Common: lists, association lists, bytes and the results of code that can fail. Tests: inputs.
--
-- Conventions. Stateful code is a function from the state to an `Outcome`: a result with the new
-- state, a `Fault` (an exception, a failed assertion, or behaviour that C++ leaves undefined), or
-- `blocked`. Code that threads interleave (the pool, the logger, the singleton) is a step relation,
-- with one step for each stretch of code that no other thread can divide. Numbers are natural
-- numbers, with `% 2 ^ w` where the code wraps around; an int is kept as its 32 bits. Memory that
-- the code leaves uninitialised is an argument (`junk`, `stack`).
--
-- Loops run over lists (the answers of the environment, the bytes, the entries) and need no fuel.
-- A theorem on a loop that can wait says how many answers are enough for it to return.
--
-- Parameters, for code outside the repository: how boost::tokenizer cuts a text (`tokenize`), what
-- the handler of a descriptor does (`call`), how a proxy parses (`parse_data`), whether dlopen and
-- ioctl succeed, boost's promise (`Promise`, with its documented laws in `IsPromise`), and the manager
-- of nbd_proxy_master.cpp, whose header is not in the repository. The order in which an unordered map
-- is walked is the order of its list. In Minion/Process a task runs undivided. In ThreadPool/Stop nobody calls Run, Pause or Resize while the
-- pool stops, and a task passes no interruption point of its own.
--
-- Not modelled: the file of the log, what a command of the shell does to the machine, the scheduling
-- of threads, the functions that only give or set a field, the programs that
-- only test or demonstrate a part, and the copies of files.
mod Common
pub mod Protocol
pub mod Raid
pub mod Storage
pub mod Net
pub mod CmdData
pub mod Factory
pub mod Minion
pub mod Nbd
pub mod Minions
pub mod Master
pub mod Disk
pub mod Reactor
pub mod Mediator
pub mod Config
pub mod Startup
pub mod Queue
pub mod ThreadPool
pub mod Dispatcher
pub mod Framework
pub mod Monitor
pub mod Logger
pub mod Singleton
pub mod Server
pub mod PlugPlay
pub mod FutureTask
pub mod NbdMaster
pub mod Connection
pub mod Tests
