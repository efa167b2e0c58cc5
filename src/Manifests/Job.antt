-- ===== src/Manifests/Job.antt =====
-- pkg/operator/volumegroup/vgmanager.go: the job that prepares the volume groups of a node.
use topolvm_operator.Base.{Bool, ◌&&◌, [], ◌∷◌, ◌++◌}
use topolvm_operator.Base.Text.{Text, codes}
use topolvm_operator.Go.Strings.{at_least}
use topolvm_operator.Cluster.{
  Globals, app_attr, cluster_attr, node_name_env, pod_name_space_env, log_level_env,
  cluster_name_env, prepare_vg_app_name, prepare_vg_job_prefix, prepare_vg_container_name,
  prepare_vg_job_log_level, prepare_vg_service_account,
}
use topolvm_operator.Kube.{Owner, Container, PodSpec, Job}
use topolvm_operator.Env.{M, pure, asks, ◌>>=◌}
use topolvm_operator.Client.{server_version_of}
use topolvm_operator.Manifests.{mount, host_volume, variable}

prepare_vg_container : Globals → Text → Text → Container
prepare_vg_container g node image = record {
  name = prepare_vg_container_name;
  image = image;
  command = codes "/topolvm" ∷ codes "prepareVg" ∷ [];
  env =
      variable node_name_env node
      ∷ variable pod_name_space_env g.namespace
      ∷ variable log_level_env prepare_vg_job_log_level
      ∷ variable cluster_name_env g.cluster_name
      ∷ [];
  mounts = mount (codes "devices") (codes "/dev") ∷ mount (codes "udev") (codes "/run/udev") ∷ [];
}

-- `provisionPodTemplateSpec`
unfoldable pub provision_pod_template_spec : Globals → Text → Text → PodSpec
unfolding prepare_vg_container
provision_pod_template_spec g node image = record {
  labels = (app_attr, prepare_vg_app_name) ∷ (cluster_attr, g.namespace) ∷ [];
  init_containers = [];
  containers = prepare_vg_container g node image ∷ [];
  volumes =
      host_volume (codes "devices") (codes "/dev")
      ∷ host_volume (codes "udev") (codes "/run/udev")
      ∷ [];
  service_account = prepare_vg_service_account;
  node = node;
}

-- Versions are compared as texts.
unfoldable pub has_indexed_jobs : Text × Text → Bool
has_indexed_jobs (major, minor) = at_least major (codes "1") && at_least minor (codes "22")

-- The job of a node; `hash` is the hash of its name.
unfoldable pub job_of : Globals → Text → Text → Owner → Text → Text × Text → Job
job_of g node image ref hash version = record {
  name = prepare_vg_job_prefix ++ hash;
  owners = ref ∷ [];
  labels = (app_attr, prepare_vg_app_name) ∷ (cluster_attr, g.namespace) ∷ [];
  pod = provision_pod_template_spec g node image;
  indexed = has_indexed_jobs version;
  active = 0;
  failed = 0;
  succeeded = 0;
}

-- `makeJob`
pub make_job : Globals → Text → Text → Owner → M Job
make_job g node image ref = do
  version ← server_version_of
  hash ← asks (λ e t. e.hash node)
  pure (job_of g node image ref hash version)
