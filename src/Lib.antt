-- ===== src/Lib.antt =====
-- The CSI driver of Zenlayer Cloud (zenlayer-cloud-csi-driver): a Kubernetes storage driver whose
-- controller service makes, attaches, resizes, snapshots and deletes cloud disks, and whose node service
-- formats and mounts them on the VMs.
--
-- Parts of the program and the files that model them. Each name is the source's, in snake_case; the
-- functions of a file keep their names.
--
-- Common: pkg/common.
--   Common/Lock.antt: lock.go. The lock set is the list of the locked identifiers; TryAcquire and
--     Release are functions of it. Lock/Exclusion runs any number of operations in any order.
--   Common/Calculator.antt: calculator.go. Bytes and GiB, on integers of 64 bits with wrap-around.
--   Common/VolumeId.antt: GenCsiVolId and ParseCsiVolId of common.go. Common/Environment.antt: VerifyEnv,
--     GetZecEnv and GetZecSecret.
--   Common/Trace.antt: EntryFunction and ExitFunction of common.go, with the map of entry times; the
--     handlers, which only log what these answer, leave the calls out. Common/Hash.antt:
--     GenerateHashInEightBytes.
--   Common/Mount.antt: FormatAndMount and what it calls, of mount.go. Mount/Formats and Mount/Success
--     prove what it keeps and what it has done.
-- Host: what is outside of the process on a VM.
--   Host/System.antt: commands, files and mounts as a record of calls that is a parameter; each call takes
--     a world and gives an answer or an error and a world. Host/Contract.antt has the laws of these calls
--     that the theorems rely on.
-- Driver: pkg/disk/driver.
--   Driver/Capability.antt, VolumeType.antt, Topology.antt: driver.go, types.go, topology.go.
--   Driver/StorageClass.antt, StorageClass/Parameters.antt: storageclass.go and utils.go. A Go map is
--     the list of its entries in the order in which it is visited. Driver/SnapshotClass.antt:
--     snapshotclass.go.
-- Cloud: pkg/cloud.
--   Cloud/Client.antt: the SDK of Zenlayer, as a record of calls that is a parameter; each call takes
--     a world and gives an answer or an error and a world. Clock stands for the timers.
--   Cloud/Exec.antt: the errors of the calls. Prelude/Act.antt: a call that may fail, as a function of the
--     world, with its bind.
--   Cloud/Wait.antt: WaitForSpecificOrError of utils.go. The loop recurs on the number of ticks that
--     come before the timer, which the environment chooses, so that every wait ends. Wait/Quiet is about jobs
--     that only look.
--   Cloud/Types.antt: types.go. Cloud/Answers.antt: what is read from the answers about disks.
--     Cloud/Disks.antt, Lookup.antt, Snapshots.antt, Instances.antt: the
--     methods of cloud_manager.go; Disks/Completes shows that the rounds of DeleteVolume are enough. The
--     loop of DeleteVolume recurs on maxReleaseDiskTimes, the loop over
--     the pages on the number of pages that the first answer gives, as in the source.
--   Cloud/Manager.antt: the interface CloudManager of manager.go, and the manager behind it.
--     Manager/Contract, Manager/Names and Snapshots/Contract say what the servers rely on; Manager/Naming
--     and the two contracts prove that the manager provides it.
-- Rpc: pkg/disk/rpcserver.
--   Rpc/State.antt: what a handler acts on (the locks and the world), the codes, and the ways to build
--     a handler; its children State/Locks, Runs, Worlds, Answers and Refusals have one rule
--     for each way.
--   Rpc/Requests.antt: the messages of CSI. Rpc/Placement.antt: PickTopology, IsValidTopology and
--     GetVolumeTopology. A topology is the list of its entries; Placement/Visits has the orders in which Go
--     can visit them.
--   Rpc/Controller/Server.antt, Create.antt, Attach.antt, Expand.antt, Snapshots.antt: the handlers of
--     controllerserver.go. Each has its checks, its locks, its calls of the cloud manager and its
--     codes in the order of the source; a part of a handler that starts with a held lock is a
--     definition of its own. Create/Quiet, Settled, Search, Again and Placeable are about a CreateVolume for a name
--     that is taken. Rpc/Controller/Dispatch.antt sends a request to its handler; Dispatch/Pending is about
--     requests whose first lock is held, Create/Source about a CreateVolume from a snapshot whose lock is held.
--   Rpc/Node: nodeserver.go, in the same way. Node/Devices.antt finds the device of a disk, Mounts.antt
--     asks for mounts, Publish.antt, Stage.antt, Expand.antt and Info.antt are the handlers. Publish/Modes reads
--     what mount options make of the mode.
--   Rpc/Identity.antt: identityserver.go. Rpc/Start.antt: run.go, and ParseEndpoint of server.go.
--   Rpc/Start/Serve.antt: serve of server.go, over os.Remove, net.Listen and the gRPC server as parameters.
--   Rpc/Start/Waiting.antt: Start, Wait, Stop and ForceStop, as steps on the wait group and the server.
-- Cmd.antt: cmd/main.go, up to the call of Run. The loop around Probe recurs on the number of rounds that
--   are left, 5 after the first.
--
-- The controller calls the cloud manager through the interface, and the cloud manager calls the SDK.
-- The laws of the handlers are proved for every cloud manager that keeps the contract; the laws of the
-- cloud manager for every SDK whose Describe calls tell what the cloud holds and only read; those of the
-- node service for every host that keeps the laws that each theorem names.
--
-- Witness holds a cloud with one disk, one with a recycle bin, a host with one disk, a network,
-- and runs of the driver against them.
--
-- Not modelled: the interceptor of the gRPC server (server.go), which only logs; the stubs
-- CloneVolume, FindTag, IsValidTags and AttachTags; IsFileExisting, IsDirEmpty and RetryOnError,
-- which nothing calls; the texts of logs and of errors, of which the kind is kept. The response of CreateSnapshot keeps the text of the creation time, and
-- Rpc/Controller/Times.antt turns it into a timestamp.
pub mod Prelude
pub mod Common
pub mod Driver
pub mod Cloud
pub mod Host
pub mod Rpc
pub mod Cmd
pub mod Witness
