-- ===== src/Lib.antt =====
-- The high-interaction client: the registry, file and process monitors that run in the kernel, the
-- loops of the userspace client that take their events, the lists by which the client leaves events
-- out, its visitor, and its connection to the server.
--
-- Each driver hooks one source of events, puts an event with its data into pool blocks, and keeps it
-- in a queue of packets. The userspace client asks for events by a control code or a message; the
-- driver fills the client's buffer with as many as fit and frees them, and the client walks over the
-- buffer. The registry and the file driver note the time of each request: without one for a while
-- they queue nothing, and a timer throws away what is queued. An event that the exclusion lists do not
-- leave out goes to the server as an element of XML. The server sends elements in turn: exclusions,
-- and visits, which are queued for a thread that hands each to a plugin. What a visit changed is sent
-- to the server as a file, in parts.
--
-- Files, and the sources they model:
--   EventQueue      the two loops over the queue that
--                   Client/KernelDrivers/CaptureKernelDrivers/RegistryMonitor/CaptureRegistryMonitor.c
--                   and .../FileMonitor/CaptureFileMonitor.c both write out; EventQueue/Reading and
--                   EventQueue/Sending have the inner loops of RegistryMonitor::run and
--                   FileMonitor::run (Client/RegistryMonitor.cpp, Client/FileMonitor.cpp)
--   Registry        CaptureRegistryMonitor.c: DriverEntry, ConnectionChecker,
--                   HandleIoctlGetRegEvents, KDispatchIoctl, QueueRegistryEvent, UnloadDriver;
--                   Registry/Callback has GetRegistryObjectCompleteName and RegistryCallback,
--                   with what RegistryMonitor::run reads out of an event
--   File            CaptureFileMonitor.c: DriverEntry, FreeQueuedEvents, ConnectionChecker,
--                   PostFileOperationCallback, QueueFileEvent, FilterUnload, SetupCallback,
--                   MessageCallback, ConnectCallback, DisconnectCallback; File/PreOperation has
--                   PreFileOperationCallback, File/Deletion CopyFileIfBeingDeleted, and
--                   File/Directories, File/DosName and File/Copy what that calls:
--                   CreateAllDirectories, GetDosDeviceName and CopyFile
--   Process         .../ProcessMonitor/CaptureProcessMonitor.c: DriverEntry, GetProcessImageName,
--                   ProcessCallback, KDispatchIoctl, UnloadDriver
--   Client          the userspace client, in Client/: Client/Exclusions Monitor.cpp and Permission.cpp,
--                   and Client/Exclusions/Receiving the monitors' handlers of exclusions;
--                   Client/Element and Client/EventController Element.h and EventController.cpp;
--                   Client/Server Server.cpp; Client/ServerReceive ServerReceive.cpp;
--                   Client/FileUploader FileUploader.cpp; Client/Url Url.cpp; Client/Visitor
--                   Visitor.cpp and VisitEvent.h, and Client/Visitor/Plugins loadClientPlugins and
--                   getApplicationPlugin; Client/Options OptionsManager.cpp; Client/Analyzer
--                   Analyzer.cpp; Client/Paths and Client/ProcessManager ProcessManager.cpp;
--                   Client/ProcessMonitor ProcessMonitor.cpp; Client/FileMonitor FileMonitor.cpp,
--                   Client/RegistryMonitor RegistryMonitor.cpp, and Client/Prefix the search in a
--                   map of prefixes that both write out; Client/Bulk the visit of a group in
--                   ApplicationPlugins/InternetExplorerBulk/Application_InternetExplorerBulk.cpp
--   Kernel          what the drivers see of the kernel: the pool, status codes, the clock, strings
--   Base            library names and shared lemmas
-- The modules below a component hold its invariant, its theorems by subject, and its tests.
--
-- State and operations. Each driver's manager structure is a record, with a flag for everything that
-- the driver has registered and with the pool. An operation takes the answers of the kernel as
-- arguments: status codes, the blocks that allocations are answered with (`none` is NULL), the clock
-- in seconds, and the exceptions that a `try` catches. The pool is the list of the allocated blocks
-- and the number of bad calls of ExFreePoolWithTag. Undefined behaviour is `none`. A list is LIST_ENTRY
-- under its spin lock, so that each operation on it is one step; System of File/System and Step of
-- Registry/Lifecycle are the sequences of calls of the entry points.
--
-- Sizes are those of the 32-bit systems that the drivers are built for: REGISTRY_EVENT 36, FILE_EVENT
-- 40, PROCESS_EVENT 2080 and FILEMONITOR_SETUP 2056 bytes; UINT and ULONG wrap at 2^32, USHORT at 2^16.
-- The loop of the client runs on fuel, one unit for an event: as much as the queue is long is enough,
-- since each round moves on by an event of at least its fixed part. The loop of CopyFile runs on fuel
-- too: one unit more than the file has bytes is enough, since each round that is followed by another
-- moves on by a full buffer. The loop of FileUploader::sendFile needs one unit more than the file has
-- bytes, and each loop of prepareStringForExclusion one more than its text has characters. The
-- recursion of ProcessManager::getProcessPath through the process monitor needs one unit more than
-- there are processes that can be opened and have no entry in the map. A string of the client is a list
-- of 16-bit characters.
--
-- Assumed of the kernel, as documented: the safe string functions of ntstrsafe.h cut off what does not
-- fit, and ZwQueryInformationProcess resolves. A user's buffer may become inaccessible after it was
-- probed: the registry driver's request in which a copy raises an exception then is a function of its own
-- (k_dispatch_ioctl_raised); the other functions for requests, of both drivers that catch exceptions, are
-- those in which no copy raises one.
--
-- The client's state is a record for each object. Parameters stand for Boost's regular expressions and
-- lexical_cast, for towlower, wcstol, fread and WideCharToMultiByte, for Base64::encode and for the
-- answers of the network; the XML parser's calls are the input of EventController,
-- with texts in as many pieces as the parser cuts them into. The time of a report is that of its event,
-- before it is written out as a string. The threads of the
-- visitor interleave in any order (Reach of Client/Visitor/Queue); a push that overlaps with front and
-- pop, which no lock prevents, leads to no state. What other threads insert into the process map while getProcessPath waits is a parameter of it,
-- and so are the answers of Windows; to the registry and the file monitor getProcessPath and the
-- exclusion lists are functions. The steps of visitGroup and of its workers interleave in any order too
-- (Reach of Client/Bulk): the return of the wait and the test of the flag are steps of their own, and a
-- wait may run out of time whenever nothing is signalled; handing a URL to a worker is one step, since the worker takes no notice of it before the last call.
--
-- Not modelled: CreateADirectory, a call of the system; starting, stopping and installing the monitors
-- and drivers; the client's core (its start, logging and updates), which mostly calls Windows; the network
-- capture and how a plugin drives its program, which are calls of WinPcap and of COM; the plugins that
-- visit one URL at a time; the server in Java.
pub mod Base
pub mod Kernel
pub mod EventQueue
pub mod Registry
pub mod File
pub mod Process
pub mod Client
