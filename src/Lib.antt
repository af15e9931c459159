-- ===== src/Lib.antt =====
-- A model of the QuData agent: a Go program that runs one virtual machine with the host's GPUs for a
-- rental service, and a tunnel that makes it reachable.
--
-- Parts. An HTTP request to create an instance allocates host ports (internal/network/port.go),
-- binds the GPUs to vfio-pci (internal/qemu/vfio.go), makes a disk (internal/qemu/image.go), starts
-- QEMU (internal/qemu/manager.go, network.go) and adds proxies to the tunnel's configuration
-- (internal/frpc/config.go, process.go). internal/server/handler.go does this in the background and
-- saves what it took (internal/storage/store.go), so that a deletion can give it back.
--
-- Files.
--   Common, Common/*: Booleans, lists, 64-bit ints, Go strings as lists of code points, Itoa, Atoi.
--   Domain: internal/domain. `Error` is the Go error with its message and its chain.
--   Network: PortAllocator. The map of taken ports is its membership test; a call gets the draw of
--     rand.Intn and the answers of net.Listen as a `Probe`. Network/Allocate: one allocation.
--     Network/Batch: AllocateAppPorts and Release.
--   Frpc/Config: Config, Proxy, the template, BuildInstanceProxies. Frpc/Proxies: what its proxies
--     connect. Frpc/Process: Process. A start has a number, which stands for its process, channel and
--     context; `live` says which processes run and what configuration each has read.
--     Process/Single, Process/Kept and Process/Runs: any order of calls, exits and restarts.
--     Process/Update: one update of the proxies. Process/Started: the process of one start.
--   Qemu/Network, Qemu/Image, Qemu/Vfio: the files of those names in internal/qemu. Image/Resize:
--     ResizeDisk. Vfio/Sysfs: the host's files, links and commands as a parameter, over any state of
--     the host. Vfio/Group: validateIOMMUGroup. Vfio/Modules: unloadGPUModules. Vfio/Bind: Bind,
--     Unbind, RestoreBinding.
--     Vfio/Kept and Vfio/Refusal: Bind on each branch. Vfio/Passed: the devices that it binds.
--   Qemu/Monitor: the client of internal/qemu/monitor.go, over a peer that is what its connections
--     do. Monitor/Exec: exec and connectLocked, which call each other. Monitor/Returns: when a
--     command returns. Monitor/Endless and Monitor/Handshake: a handshake that is dropped.
--     Monitor/Sent: how often a command is written.
--   Qemu/Recovery: internal/qemu/recovery.go and KillOrphans, over the names of the run directory.
--     Recovery/Names and Recovery/Suffixes: names and removals. Recovery/Cleared, Recovery/Gone and
--     Recovery/Orphans: what is left of the directory. Recovery/Killed: which processes are killed.
--   Qemu/Ssh: shellQuote and arguments of internal/qemu/ssh.go. Ssh/Quoting: a reader of shell words.
--     Ssh/Remote: WriteFile, WaitForBoot. Ssh/HereDoc: a reader of here-documents.
--     Ssh/WriteCommand: a reader of WriteFile's command.
--   Qemu/Manager: the fields of Manager, and its effects on the host as a list, the last first.
--     Manager/Args: buildVMArgs. Manager/Parts and Manager/Begin: Create up to where it gives up the
--     mutex to wait for SSH. Manager/Resume: the rest of Create. Manager/Stop: Stop and cleanup.
--     Manager/Queries: Manage, Status, MarkFailed, Invalidate, the goroutine that waits for QEMU.
--     Manager/Client: Manage over the QMP client.
--     Manager/SshKeys: AddSSHKey, RemoveSSHKey, waitForQMP. Manager/KeyWords: a key as a shell word.
--     Proofs: Manager/Ledger (what is held, read off the effects), Manager/Invariant (Stop),
--     Manager/Binding and Manager/Atomic (Create's first half), Manager/Resumed (its second half),
--     Manager/Runs (any order of steps).
--   Server/Create: createTestInstance and createFRPCInstance. Server/Lifecycle: startVM,
--     startVMWithFRPC, saveState, DeleteInstance and destroyInstance over the other components'
--     states. Server/Ports and Server/Requested: the ports of a request.
--     Server/Exclusive: the ports of all instances. Server/Twice: two deletions at once.
--     Server/Forwards: the network arguments of QEMU. Server/Answered: both modes.
--     Server/Conserved: a request's whole life. Server/Routes: from the public ports to the guest's.
--     Server/Auth: AuthMiddleware. Server/Router: the routes behind it. Server/Manage: GetInstance,
--     ManageInstance, AddSSH, RemoveSSH. Manage/Coded: the status codes. Server/Serving: any order of
--     the handlers' and the processes' steps.
--   Storage: Store, with its files by name. Storage/RoundTrip: what is read back.
--   AgentConfig: internal/config/config.go, over an environment. AgentConfig/Valid: what Load accepts.
--   Qudata: internal/qudata/client.go, over a service that answers requests.
--   Keys: internal/ssh/keygen.go. Keys/Kept: EnsureManagementKey called again.
--   System: the readers of internal/system/probe.go and internal/gpu/provider.go.
--   Agent: bootstrap of internal/agent/agent.go. Agent/Run: Run and shutdown. Agent/Main: New, and
--     cmd/agent/main.go. Agent/Publish: publishStats; Publish/Quiet: what it logs. Agent/Booted:
--     bootstrap on each branch. Agent/Up: where the server listens. Agent/Down and Agent/Exits: the
--     end of the program. Agent/Restart and Agent/Identity: two starts over one data directory.
--   Tests: runs at concrete inputs.
--
-- Bounds and fuel. Itoa takes one round of fuel for each digit, and n + 1 rounds are given for n; %o
-- does the same. The scan for a port recurs on the rounds that are left, which are as many as the
-- range has ports. connectLocked calls itself through exec without a bound; its fuel counts these
-- calls, and Monitor/Returns and Monitor/Endless say for which peers there is enough of it. Loops that
-- wait, such as waitForQMP, recur on the list of what their rounds see.
--
-- Outside. The file system, processes, QEMU, qemu-img, JSON, random numbers and sockets are
-- parameters: records of answers, such as `CreateEnv`. Time shows only as the outcome of a wait.
-- A failing Bind is its error and the devices it has bound by then. Logging is left out, and so are the parts that only pass calls on to gin or net/http. Not modelled
-- are the amounts in floats (RAM, disk, VRAM, frequencies, the statistics of a VM and their parsers),
-- NewLogger, and ProcessExists, which nothing calls. What happens while the agent serves is a
-- parameter of Run, of which main's theorem asks that it be steps of Server/Serving; and what the jobs
-- still do beside shutdown is another, of which it asks that it leave the tunnel and the VM. A text is a list
-- of code points; a Go string that is not UTF-8 is not modelled.
pub mod Common
pub mod Domain
pub mod Network
pub mod Frpc
pub mod Qemu
pub mod Server
pub mod Storage
pub mod AgentConfig
pub mod Qudata
pub mod Keys
pub mod System
pub mod Agent
mod Tests
