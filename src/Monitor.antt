-- ===== src/Monitor.antt =====
-- pkg/operator/monitor/status.go: `checkStatus`, the phases of a cluster and its nodes. The pods, the
-- ConfigMaps and the conditions of the nodes, which it lists with the API, are arguments, and its
-- result is the status that it writes where it differs from the old one. Its metrics are left out.
pub mod Phases
pub mod Covered
mod Tests
use topolvm_operator.Base.{
  Bool, true, false, not, ◌&&◌, Option, none, some, List, [], ◌∷◌, ◌++◌, any, map, if◌then◌else◌,
}
use topolvm_operator.Base.Text.{Text, codes, same}
use topolvm_operator.Base.Maps.{Map, lookup, insert, get_or, keys}
use topolvm_operator.Api.{
  NodeDevices, Storage, ClassState, NodeStorageState, ClusterStatus, class_ready, condition_ready,
  condition_failure, condition_unknown, condition_pending,
}
use topolvm_operator.Cluster.{lvmd_annotations_node_key}
use topolvm_operator.Env.{ConfigMap}

-- The fields of a Kubernetes pod that are read: `Spec.NodeName`, `Status.Phase`, and whether each
-- container is ready.
pub record Pod : Type 0 where
  pub node_name : Text
  pub phase : Text
  pub ready : List Bool

node_names : Option (List NodeDevices) → List Text
node_names none = []
node_names (some ds) = map (λ (d : NodeDevices). d.node_name) ds

pub nodes_of : Storage → List ConfigMap → List Text
unfolding node_names
nodes_of s cms =
    if s.use_all_nodes
    then map (λ (cm : ConfigMap). get_or [] lvmd_annotations_node_key cm.annotations) cms
    else node_names s.device_classes

unfoldable pub pod_phase : Pod → Text
pod_phase pod =
    if any not pod.ready
    then condition_failure
    else if same pod.phase (codes "Running")
    then condition_ready
    else if same pod.phase (codes "Unknown")
    then condition_unknown
    else if same pod.phase (codes "Failed")
    then condition_failure
    else if same pod.phase (codes "Pending")
    then condition_pending
    else condition_unknown

unfoldable pub state_of : Text → Text → NodeStorageState
state_of node phase = record {
  node = node;
  phase = phase;
  fail_classes = [];
  success_classes = [];
  loops = [];
}

-- The loop over the pods for one node: the last pod of the node wins.
pub put_pods : Text → List Pod → Map NodeStorageState → Map NodeStorageState
put_pods node [] m = m
put_pods node (p ∷ ps) m =
    put_pods node ps
      (if same p.node_name node then insert node (state_of node (pod_phase p)) m else m)

unfoldable pub has_pod : Text → List Pod → Bool
has_pod node pods = any (λ (p : Pod). same p.node_name node) pods

pub put_node : List Pod → Text → Map NodeStorageState → Map NodeStorageState
unfolding has_pod
put_node pods node m =
    if has_pod node pods
    then put_pods node pods m
    else insert node (state_of node condition_failure) m

pub put_nodes : List Pod → List Text → Map NodeStorageState → Map NodeStorageState
put_nodes pods [] m = m
put_nodes pods (n ∷ ns) m = put_nodes pods ns (put_node pods n m)

-- The conditions of a node, with their type and status; `none` where the API gives an error.
abbrev pub Conditions : Type 0
Conditions = Text → Option (List (Text × Text))

is_unknown : Option (List (Text × Text)) → Bool
is_unknown none = false
is_unknown (some cs) =
    any (λ (c : Text × Text). same c.0 (codes "Ready") && same c.1 (codes "Unknown")) cs

pub known_phase : Conditions → Text → NodeStorageState → NodeStorageState
unfolding is_unknown
known_phase conditions key n =
    if is_unknown (conditions key) then record n { phase = condition_unknown } else n

-- The new phase goes into each state of the node, or the new state behind the others.
unfoldable pub set_phase : Text → NodeStorageState → NodeStorageState → NodeStorageState
set_phase key v n = if same n.node key then record n { phase = v.phase } else n

unfoldable pub merge_node : Text → NodeStorageState → List NodeStorageState → List NodeStorageState
unfolding set_phase
merge_node key v ns =
    if any (λ (n : NodeStorageState). same n.node key) ns
    then map (set_phase key v) ns
    else ns ++ v ∷ []

merge_found :
    Conditions → Text → Option NodeStorageState → List NodeStorageState → List NodeStorageState
merge_found conditions key none ns = ns
merge_found conditions key (some v) ns = merge_node key (known_phase conditions key v) ns

pub merge :
    Conditions → Map NodeStorageState → List Text → List NodeStorageState → List NodeStorageState
unfolding merge_found
merge conditions m [] ns = ns
merge conditions m (k ∷ ks) ns = merge conditions m ks (merge_found conditions k (lookup k m) ns)

unfoldable pub node_ready : NodeStorageState → Bool
node_ready n = any (λ (c : ClassState). same c.state class_ready) n.success_classes

unfoldable pub with_classes : NodeStorageState → NodeStorageState
unfolding node_ready
with_classes n = if node_ready n then n else record n { phase = condition_failure }

-- The last loop: `n` is a copy from before its phase is set, and its phase decides on the cluster.
unfoldable pub finish : List NodeStorageState → ClusterStatus
unfolding with_classes
finish ns = record {
  phase =
      if any (λ (n : NodeStorageState). same n.phase condition_ready) ns
      then condition_ready
      else condition_failure;
  node_storage_status = map with_classes ns;
}

pub check_status :
    List Text → List Pod → Conditions → (List Text → List Text) → ClusterStatus → ClusterStatus
check_status nodes pods conditions order status =
    let m = put_nodes pods nodes [] in
    finish (merge conditions m (order (keys m)) status.node_storage_status)
