-- ===== src/Manifests/Mounts.antt =====
-- The volumes and the labels of the manifests.
use topolvm_operator.Base.{ℕ, ◌≡◌, refl, Bool, true, false, ◌&&◌, not, [], ◌∷◌, ◌++◌, any}
use topolvm_operator.Base.Text.{Text, same, same_refl}
use topolvm_operator.Base.Maps.{Map}
use topolvm_operator.Cluster.{Globals}
use topolvm_operator.Kube.{Owner, VolumeMount, Volume, Container, PodSpec}
use topolvm_operator.Manifests.Job
use topolvm_operator.Manifests.Node
use topolvm_operator.Manifests.Controller
use topolvm_operator.Manifests.Discover

-- Every mount of every container is of a volume of the pod.
pub mounts_declared : PodSpec → Bool
mounts_declared p = not (
    any
      (λ (c : Container).
        any (λ (m : VolumeMount). not (any (λ (v : Volume). same v.name m.name) p.volumes))
          c.mounts)
      (p.init_containers ++ p.containers))

-- The selector finds the pods of the template.
pub selects : Map Text → PodSpec → Bool
selects [] p = true
selects ((k, v) ∷ m) p = any (λ (l : Text × Text). same l.0 k && same l.1 v) p.labels && selects m p

abbrev pub IsComplete : Map Text → PodSpec → Type 0
IsComplete selector p = (mounts_declared p ≡ true) × (selects selector p ≡ true)

job_pod :
    (g : Globals) (node image hash : Text) (ref : Owner) (version : Text × Text)
    → IsComplete [] (Job.job_of g node image ref hash version).pod
unfolding mounts_declared Job.job_of Job.provision_pod_template_spec same selects
job_pod g node image hash ref version = (refl, refl)

node_pod :
    (g : Globals) (name node config_map : Text) (ref : Owner)
    → IsComplete
        (Node.get_deployment g name node config_map ref).selector
        (Node.get_deployment g name node config_map ref).pod
unfolding mounts_declared Node.get_deployment Node.get_lvmd_container same Node.get_node_container
    Node.node_mounts Node.get_csi_registrar_container Node.get_liveness_probe_container selects
node_pod g name node config_map ref = (refl, rw (same_refl name) refl)

controller_pod :
    (g : Globals) (ref : Owner) (n : ℕ) (certs : Bool)
    → IsComplete
        (Controller.controller_deployment g ref n certs).selector
        (Controller.controller_deployment g ref n certs).pod
unfolding mounts_declared Controller.controller_deployment Controller.get_init_container same
    Controller.get_controller_container Controller.get_csi_provisioner_container
    Controller.get_csi_resizer_container Controller.get_liveness_probe_container selects
controller_pod g ref n true = (refl, refl)
controller_pod g ref n false = (refl, refl)

discover_pod :
    (name image : Text) (loop : Bool)
    → IsComplete
        (Discover.get_daemon_set name image loop).selector
        (Discover.get_daemon_set name image loop).pod
unfolding mounts_declared Discover.get_daemon_set same selects
discover_pod name image loop = (refl, rw (same_refl name) refl)

-- In each pod that the operator makes, for any node, image, owner and setting, the containers mount
-- only volumes that the pod declares, and the selector of the deployment or daemon set matches the
-- labels of its own pods.
pub manifests-AreComplete :
    (g : Globals) (node image config_map name hash : Text) (ref : Owner) (version : Text × Text)
    (n : ℕ) (certs loop : Bool)
    → IsComplete [] (Job.job_of g node image ref hash version).pod
      × IsComplete
          (Node.get_deployment g name node config_map ref).selector
          (Node.get_deployment g name node config_map ref).pod
      × IsComplete
          (Controller.controller_deployment g ref n certs).selector
          (Controller.controller_deployment g ref n certs).pod
      × IsComplete
          (Discover.get_daemon_set name image loop).selector
          (Discover.get_daemon_set name image loop).pod
manifests-AreComplete g node image config_map name hash ref version n certs loop = (
  job_pod g node image hash ref version,
  node_pod g name node config_map ref,
  controller_pod g ref n certs,
  discover_pod name image loop,
)
