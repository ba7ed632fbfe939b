-- ===== src/Lib.antt =====
-- A verification library for dc-net-lab, which plans, deploys and observes virtual data centre networks.
--
-- The parts and the files that model them (paths from the repository's root):
--   * controller/internal/allocator/asn/asn.go: Asn. `New`, `Allocate`, `Release` and `Restore` are `new`,
--     `allocate`, `release` and `restore`; what they do to one role's range ends in `_in`. Asn/Sound has the
--     invariant of a range, Asn/Calls any calls one after the other, Asn/Reuse what one range serves.
--   * controller/internal/allocator/ipam/ipam.go: Ipam, on the addresses of NetIp, a model of Go's net/netip
--     from its documentation; NetIp/Bytes is the byte loop of `nextSubnetStart`. Ipam/Next compares it with
--     plain arithmetic, Ipam/Sound has the pool's invariant and Ipam/Overlap any calls one after the other.
--   * controller/internal/capture/window.go: Window, with Window/History on the whole history.
--   * controller/internal/capture/bgp.go and the field tree of decode.go: Bgp. Bgp/Attributes renders path
--     attributes, Bgp/Capabilities the parameters of an OPEN, Bgp/Messages the messages and the loop over a
--     TCP payload; Bgp/Ranges and Bgp/Ranges/Messages are about the byte ranges of what is decoded, and
--     Bgp/Framing about segments of whole messages. Texts are the bytes of Go's strings (GoText).
--   * nodeapps/internal/nodeagent: NodeAgent. NodeAgent/Health is `normalise` of health.go. NodeAgent/Supervise
--     has one function for each thing that a goroutine of manager.go does in one go under the lock
--     (`startLocked`, `supervise`, `monitorReadiness`, `setHealth`), Steps interleaves them, Stop is about
--     `cancel`, Liveness about `monitorLiveness` and Races about orders of steps that go wrong.
--     Names is the pattern of program names.
--   * controller/internal/biz/fault.go: Fault, with the validation and the store of scenarios; Fault/Endpoints
--     has what calls the driver (`ApplyFaultScenario`, `RecoverFaultScenario`, `DeleteFaultScenario`). The driver and
--     the power usecase are the record `Driver`; Fault/Rollback is about the calls that a driver gets which may answer
--     anything. The usecase holds no lock: `begin_apply` is `ApplyFaultScenario` up to the end of its checks and
--     `apply_to` the rest, and `apply` is both with nothing in between. Fault/Exclusive and Fault/Calls are about whole calls, one after the other, and
--     Fault/Overlap about two that overlap.
--   * controller/internal/operation/operation.go: Operation. `run` is the goroutine of `Run` with every state that it
--     persists, `report` the callback of `withReporter`; what a step reports and returns is given. Operation/Progress and
--     Operation/Outcome are about these states, and Operation/Buffer is one subscriber's channel with `publish`,
--     whose two `select`s are two steps.
--   * internal/model: Model, the nodes, links, pools and shapes that the other parts share.
--   * controller/internal/topology: Topology has the builder's state, `NewBuilder` with `restore`, and the allocations, on the
--     pools of Ipam and the ranges of Asn; Topology/Build is `Build` with `addRack`, `addRouter`, `addLeaf`, `addServer`,
--     `addLink` and `addL2Link`; Topology/Defaults and Topology/Derive are defaults.go and allocations.go. Topology/Steps
--     takes `Build` apart into its steps and Topology/Shapes tells what each step leaves; Pins, Restored, Leaves and
--     Empty are about `restore`. GoFmt prints and scans the numbers in names.
--   * controller/internal/biz/plandiff.go and increment.go: Plan is `carryOverIdentity` and `planChanges`, one function for each of
--     its loops, and Plan/Increment `buildIncrement` and `restoreScope`; Plan/Diff and Plan/Wiring carry out the operations
--     and the increment on names, Plan/Updates is about the nodes that are refreshed.
--   * controller/internal/biz/lab.go: Lab, `validateTopologySpec` and `fillPodNames`. The search for a free default name tries one
--     name more than are used, which Lab/Free shows to be enough; Lab/Names is about the names that are filled in.
--   * controller/internal/traffic/history.go: History, with History/Complete on any calls of `AppendPoint`. The window
--     of controller/internal/metrics/history.go is trimmed by the same code.
-- Prelude has what the modules share: lists measured by native numbers, Boolean tests, Go maps by their laws,
-- signed integers and error results.
--
-- A map is used only through its laws. A mutex makes each call of an allocator one step. Numbers are natural numbers with
-- the wrap-around of uint32 written out where the code counts up; byte values are not bounded where a
-- theorem does not need it. A loop over a position is recursion on the bytes from there on with fuel: each
-- turn drops a byte at least, so the number of bytes is enough, and the callers give that much.
--
-- Not modelled: files, sockets, processes and clocks (their outcomes are arguments), the layers that gopacket
-- decodes, log lines, the failures of the repository that holds the fault scenarios, and the texts of errors
-- beyond the values formatted into them. Of the other parts, the rest of controller/internal/biz (plans, programs, the runtime),
-- the collection and the files of metrics, the compilers, the storage, the servers, the agent and the web
-- client are not modelled.
pub mod Asn
pub mod Bgp
pub mod Fault
pub mod GoFmt
pub mod GoText
pub mod History
pub mod Ipam
pub mod Lab
pub mod Model
pub mod Names
pub mod NetIp
pub mod NodeAgent
pub mod Operation
pub mod Plan
pub mod Prelude
pub mod Topology
pub mod Window
