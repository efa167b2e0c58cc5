-- ===== src/Client.antt =====
-- The calls of the Kubernetes API by which the operator reads: each is an action, and `Answers` says
-- what comes back.
use topolvm_operator.Base.{◌≡◌, refl, Bool, true, false, Option, List, []}
use topolvm_operator.Base.Text.{Text}
use topolvm_operator.Api.{TopolvmCluster}
use topolvm_operator.Kube
use topolvm_operator.Kube.{
  Deployment, DaemonSet, Job, Node, Kind, topolvm_cluster, deployment, daemon_set, job, node, pod,
}
use topolvm_operator.Env
use topolvm_operator.Env.{
  M, done, request, get_object, list_objects, update_cluster, get_server_version, not_found, Error,
}

abbrev pub get_cluster : Text → M TopolvmCluster
get_cluster name = request (get_object topolvm_cluster name) (λ a. a.found_cluster name)

abbrev pub list_clusters : M (Option (List TopolvmCluster))
list_clusters = request (list_objects topolvm_cluster []) (λ a. a.listed_clusters)

-- `client.Update` leaves what the server answers in the object.
abbrev pub put_cluster : TopolvmCluster → M TopolvmCluster
put_cluster c = request (update_cluster c) (λ a. a.updated_cluster c)

abbrev pub get_deployment : Text → M Deployment
get_deployment name = request (get_object deployment name) (λ a. a.found_deployment name)

-- With a label selector, empty for none.
abbrev pub list_deployments : Text → M (List Deployment)
list_deployments label = request (list_objects deployment label) (λ a. a.listed_deployments label)

abbrev pub get_daemon_set : Text → M DaemonSet
get_daemon_set name = request (get_object daemon_set name) (λ a. a.found_daemon_set name)

abbrev pub get_job : Text → M Job
get_job name = request (get_object job name) (λ a. a.found_job name)

abbrev pub list_nodes : M (List Node)
list_nodes = request (list_objects node []) (λ a. a.listed_nodes)

-- The names of the pods with a label.
abbrev pub list_pods : Text → M (List Text)
list_pods label = request (list_objects pod label) (λ a. a.listed_pods label)

-- The owner references of a pod, `none` for nil.
abbrev pub get_pod_owners : Text → M (Option (List Kube.Owner))
get_pod_owners name = request (get_object pod name) (λ a. a.pod_owners name)

-- An object of which only its existence is looked at.
abbrev pub get_named : Kind → Text → M (Unit {0})
get_named k name = request (get_object k name) (λ a. done (a.found_named k name))

abbrev pub server_version_of : M (Text × Text)
server_version_of = request get_server_version (λ a. a.server_version)

-- `kerrors.IsNotFound`
abbrev pub is_not_found : Error → Bool
is_not_found not_found = true
is_not_found _ = false

pub not_found_is : (x : Error) → is_not_found x ≡ true → x ≡ not_found
not_found_is not_found h = refl
not_found_is (Env.exited n m) h = absurd (cc)
not_found_is (Env.unstarted m) h = absurd (cc)
not_found_is Env.already_exists h = absurd (cc)
not_found_is Env.conflict h = absurd (cc)
not_found_is Env.invalid h = absurd (cc)
not_found_is (Env.new m) h = absurd (cc)
