-- ===== src/Lib.antt =====
-- TopoLVM operator: the controllers of the operator, the job that prepares the volume groups of a
-- node, and the checks of their state.
--
-- The operator reconciles a custom resource (cmd/operator). It deploys the controller of TopoLVM
-- and a daemon that looks for devices, and runs one job on each node with storage (cmd/preparevg).
-- The job reads the custom resource of the cluster, lists the free disks of its node, and makes,
-- resizes or removes volume groups with LVM commands on the host, so that they become what the
-- specification says. It writes what it did into a ConfigMap. The operator watches these: it takes
-- the status of the node over into the status of the cluster, and deploys lvmd on the node. The
-- daemon on the node writes its devices into the same ConfigMap and checks that those of the ready
-- classes are still there, and the operator computes the phases of the nodes and of the cluster.
--
-- An operation of the program is an action of a monad M: a function of an environment, which
-- answers, and of the trace of what was done so far. It gives a result (a value, an error or a
-- panic) and a longer trace. So a theorem can say which commands are run and which calls of the API
-- are made, in which order, and what happens when one of them fails, whatever the node and the API
-- answer. What the operator keeps between its calls is the record Reconciler, which a call takes
-- and gives back, beside an error too.
--
-- The files and the code that they model:
--   Base: Boolean tests, lists, texts as lists of character codes, and maps. A map of Go is an
--     association list with one entry for a key; the order in which Go visits the keys is the
--     environment's.
--   Go: what the code uses of the packages strings, strconv and path.
--   Api: api/v2/topolvmcluster_types.go, the records of the custom resource.
--   Cluster: pkg/cluster/type.go, and the variables and constants of pkg/cluster/common.go.
--   Kube: the objects of Kubernetes, with the fields that the code sets or reads.
--   Env: results, actions and the trace; runCommandWithOutput, ExecuteCommand and
--     ExecuteCommandWithOutput of pkg/util/exec/exec.go. Env/Laws, Env/Emits, Env/Safe, Env/Costs and
--     Env/Ensures hold the rules by which the other files prove what is run, how much of it, what
--     returns, and what holds of the value.
--   Client: the calls by which the operator reads from the API.
--   ConfigMaps: CreateOrPatchConfigmap and PatchConfigMap of pkg/operator/k8sutil/configmap.go,
--     TruncateNodeName of pkg/operator/k8sutil/k8sutils.go.
--   Util: status.go, deployment.go, daemonset.go, delete.go, options.go, job.go, pod.go, resources.go
--     and the settings of configmap.go in pkg/operator/k8sutil.
--   Manifests: the pods of pkg/operator/volumegroup/vgmanager.go, pkg/operator/node/node.go,
--     pkg/operator/volumectr/volume_controller.go and pkg/operator/discover/daemon.go.
--   Sys/Parse: the parsers of pkg/util/sys/lvm.go and pkg/util/sys/device.go.
--   Sys/Lvm, Sys/Device, Sys/Disks, Sys/Loop: the other functions of lvm.go, device.go, disks.go and
--     loop.go in pkg/util/sys, under the same names.
--   PrepareVg: controllers/preparevg_controller.go. PrepareVg/Loops is checkLoopDevice,
--     PrepareVg/Create is createVg and createVgRetry, PrepareVg/Resize is checkVgIfExpand,
--     checkVgIfShrink and checkVgIfDelete, PrepareVg/Conf is what is written into the ConfigMap, and
--     PrepareVg/Provision is provision, provisionFirst and provisionWithNodeStatus.
--   Operator: controllers/topolvmcluster_controller.go (Operator/Reconcile is reconcile,
--     Operator/Cluster is onAdd, Operator/Daemon is checkUpdateDiscoverDaemonset, Operator/Status is
--     UpdateStatus), controllers/lvmdconfig_controller.go (Operator/Lvmd),
--     controllers/operatorconfig_controller.go (Operator/Settings), and what they call:
--     pkg/operator/controller/finalizer.go (Operator/Finalizers), the functions of
--     pkg/operator/node/node.go (Operator/Node), MakeAndRunJob (Operator/Jobs), and
--     pkg/operator/csidriver/csidriver.go and pkg/operator/psp/psp.go (Operator/Volumes).
--   Monitor: checkStatus of pkg/operator/monitor/status.go, without its metrics.
--   Discover: pkg/operator/discover/discover.go: checkDeviceClass here, updateDeviceCM and the loop
--     devices in Discover/Devices, matchUdevEvent in Discover/Udev.
-- The code returns maps that it changed through a pointer; here they come back as a value, also beside
-- an error. Pointers into a map are looked up again, and a missing one is a panic. A function that is
-- started with go is an action (the status checker, the watch of the ConfigMaps) or, for the function
-- literals of startPrepareVolumeGroupJob, runs where it is started.
--
-- Parameters, in the record Env: the answers of processes and of the API server, the order in which
-- Go visits a map, random identifiers, and the libraries for JSON, YAML, hashes and identifiers. A
-- theorem that needs Go to visit every key says so (VisitsAll). The record Setup has wait.Poll and
-- the library that compares deployments; regular expressions are an argument of matchUdevEvent.
-- Env/World builds environments for the tests.
--
-- Bounds: an unsigned number of 64 bits is a natural number below 2 ^ 64, and additions,
-- subtractions and conversions that can leave that range are written out; `parse_uint` refuses what
-- does not fit. A number is printed with fuel for 20 digits, and a number below 2 ^ 64 has no more.
-- The loops that wait for an object count their tries down as the code does; retryLoopDevice, which
-- has no bound, takes the number of checks that are looked at. All other loops are structural
-- recursions. Namespaces are left out where they are the operator's own. Numbers of retries are
-- natural numbers: at the largest uint the loop of DeleteResource would not end, and the model
-- stands for the counts below it. A map of the API is taken to be there: the panic of an assignment
-- to a nil map is modelled for the annotations of the daemon set, and not for the data of a
-- ConfigMap.
--
-- Not modelled: logging, the texts of format verbs inside error messages, locks and time, Reconcile
-- of the job (it reads the cluster, calls provision and ends the process), the event loop of the
-- discovery daemon, the calls of the API around checkStatus, the match of owners, resource limits,
-- probes and security contexts of the manifests, metrics, certificates, flags and generated code.
pub mod Base
pub mod Go
pub mod Api
pub mod Cluster
pub mod Kube
pub mod Env
pub mod Client
pub mod Util
pub mod Manifests
pub mod Sys
pub mod ConfigMaps
pub mod Discover
pub mod Monitor
pub mod Operator
pub mod PrepareVg
