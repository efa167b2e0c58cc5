-- ===== src/Util/Tests.antt =====
-- Runs of the helpers on an API server that has no objects, or one job.
use topolvm_operator.Base.{
  ◌≡◌, ◌≢◌, ◌<◌, ◌^◌, ◌-◌, arith, refl, ℕ, Bool, true, false, none, some, [], ◌∷◌, if◌then◌else◌,
}
use topolvm_operator.Base.Text.{Text, codes}
use topolvm_operator.Api.{TopolvmCluster}
use topolvm_operator.Kube
use topolvm_operator.Kube.{Deployment, Job, PodSpec}
use topolvm_operator.Env.{
  delete_object, panic, Env, ok, conflict, M, pure, fail, ◌>>=◌, new, wrap, api_write,
}
use topolvm_operator.Env.World.{no_objects, kube_world}
use topolvm_operator.Util.{update_or_init, status_failed, update_status}
use topolvm_operator.Util.Delete.{
  WaitOptions, DeleteOptions, retry_count_or_default, delete_resource, delete_deployment,
  delete_resource_and_wait, wait_gone,
}
use topolvm_operator.Client.{get_named}
use topolvm_operator.Util.Verified.{retries, Deletes, delete_resource-Deletes}
use topolvm_operator.Util.Gone.{SaidGone, delete_deployment-SaidGone}
use topolvm_operator.Util.Once.{update_status-once}

abbrev empty : Env
empty = kube_world no_objects

abbrev no_pod : PodSpec
no_pod = record {
  labels = [];
  init_containers = [];
  containers = [];
  volumes = [];
  service_account = [];
  node = [];
}

abbrev deployed : Deployment
deployed = record {
  name = codes "d1";
  owners = [];
  labels = [];
  replicas = 1;
  selector = [];
  pod = no_pod;
}

-- A deployment that is still there at the first look after its deletion, and gone at the second.
abbrev leaving : Env
leaving = record empty {
  kube = λ t. elim t [
    | [] ↦ no_objects
    | a ∷ u ↦ elim u [
      | [] ↦ record no_objects { found_deployment = λ name. ok deployed }
      | b ∷ v ↦ no_objects
    ]
  ];
}

deletes : (delete_deployment (codes "d1") leaving []).0 ≡ ok tt
unfolding delete_deployment delete_resource_and_wait api_write wait_gone
deletes = refl

delete_deployment-SaidGone_example :
    SaidGone (codes "d1") leaving [] (delete_deployment (codes "d1") leaving []).1
delete_deployment-SaidGone_example = delete_deployment-SaidGone (codes "d1") leaving [] deletes

-- Three retries, so that at most four looks are made.
abbrev waiting : WaitOptions
waiting = record { wait = true; retry_count = 3; error_on_timeout = true }

abbrev options : DeleteOptions
options = record { must_delete = true; wait_options = waiting }

abbrev remove_pod : M (Unit {0})
remove_pod = api_write (delete_object Kube.pod (codes "p1"))

abbrev look_at_pod : M (Unit {0})
look_at_pod = get_named Kube.pod (codes "p1")

few : retries options waiting < 2 ^ 64 - 1
unfolding retry_count_or_default
few = omega arith

remove_safe : (remove_pod empty []).0 ≢ panic
unfolding api_write
remove_safe h = cc

delete_resource-Deletes_example :
    Deletes remove_pod look_at_pod
      (codes "p1")
      options
      waiting
      empty
      (remove_pod empty []).0
      (remove_pod empty []).1
      (delete_resource remove_pod look_at_pod (codes "p1") options waiting empty [])
delete_resource-Deletes_example =
    delete_resource-Deletes remove_pod look_at_pod (codes "p1") options waiting empty [] few
      remove_safe (λ u h. cc)

abbrev job : ℕ → Job
job n = record {
  name = codes "j1";
  owners = [];
  labels = [];
  pod = no_pod;
  indexed = true;
  active = n;
  failed = 0;
  succeeded = 0;
}

-- A poll that asks twice before it gives up.
abbrev poll_twice : M Bool → M (Unit {0})
poll_twice m = do
  b ← m
  if b then pure tt else (do
    c ← m
    if c then pure tt else fail (new (codes "timed out waiting for the condition")))

abbrev busy : Env
busy = kube_world (record no_objects { found_job = λ name. ok (job 1) })

abbrev cluster : TopolvmCluster
cluster = record {
  name = codes "c1";
  kind = codes "TopolvmCluster";
  uid = codes "u1";
  finalizers = [];
  created = 0;
  deleted = false;
  spec = record {
    topolvm_version = codes "topolvm:1";
    certs_secret = [];
    storage = record {
      device_classes = none;
      use_all_nodes = false;
      use_all_devices = false;
      devices = none;
      volume_group_name = [];
      class_name = [];
      use_loop = false;
    };
  };
  status = record { phase = []; node_storage_status = [] };
}

-- An API server whose writes are in conflict.
abbrev in_conflict : Env
in_conflict = record empty { write_error = λ t. some conflict }

update_status-once_example :
    update_status cluster in_conflict []
    ≡ wrap (status_failed (codes "c1")) (update_or_init cluster) in_conflict []
update_status-once_example = update_status-once cluster in_conflict []
