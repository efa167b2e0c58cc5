-- ===== src/Operator/Daemon.antt =====
-- The daemon set of the discovery daemon: `MakeDiscoverDevicesDaemonset` of
-- pkg/operator/discover/daemon.go, `GetRunningPod` of pkg/operator/k8sutil/pod.go, and
-- `checkUpdateDiscoverDaemonset` of controllers/topolvmcluster_controller.go.
use topolvm_operator.Base.{
  Bool, true, false, Option, none, some, List, [], ◌∷◌, ◌++◌, map, if◌then◌else◌,
}
use topolvm_operator.Base.Text.{Text, codes, same}
use topolvm_operator.Base.Maps.{Map, has_key, insert}
use topolvm_operator.Cluster.{
  discover_app_name, loop_annotations_key, loop_annotations_val, use_loop_env, use_loop,
  pod_name_env,
}
use topolvm_operator.Kube.{Owner, Container, DaemonSet}
use topolvm_operator.Env.{
  M, pure, fail, crash, asks, ◌>>=◌, wrap, value, error, attempt, new, api_write, update_daemon_set,
}
use topolvm_operator.Client.{is_not_found, get_daemon_set, get_pod_owners}
use topolvm_operator.Util.{create_or_update_daemon_set}
use topolvm_operator.Util.Select.{set_owner_refs}
use topolvm_operator.Manifests.{variable}
use topolvm_operator.Manifests.Discover

-- `os.Getenv`
getenv : Text → M Text
getenv name = asks (λ e t. elim ((e.kube t).variable name) [ none ↦ [] | some v ↦ v ])

-- `GetRunningPod`, of which the owners are read.
pub get_running_pod : M (Option (List Owner))
unfolding getenv
get_running_pod = do
  name ← getenv pod_name_env
  if same name []
      then fail (
          new (
            codes "cannot detect the pod name. Please provide it using the downward API in "
            ++ codes "the manifest file"))
      else get_pod_owners name

-- `MakeDiscoverDevicesDaemonset`
pub make_discover_devices_daemon_set : Text → Text → Bool → M (Unit {0})
make_discover_devices_daemon_set name image loop = do
  r ← attempt get_running_pod
  let d = Discover.get_daemon_set name image loop
  wrap (codes "create daemonset " ++ name ++ codes " failed") (elim r [
    | error x ↦ create_or_update_daemon_set d
    | value refs ↦ create_or_update_daemon_set (record d { owners = set_owner_refs d.owners refs })
  ])

unfoldable pub set_images : Text → List Container → List Container
set_images image cs = map (λ (c : Container). record c { image = image }) cs

-- The images, where the first is another.
unfoldable pub with_image : Text → Container → List Container → Bool × List Container
unfolding set_images
with_image image c cs =
    if same c.image image then (false, c ∷ cs) else (true, set_images image (c ∷ cs))

unfoldable pub add_loop_env : List Container → List Container
add_loop_env [] = []
add_loop_env (c ∷ cs) = record c { env = c.env ++ variable use_loop_env use_loop ∷ [] } ∷ cs

-- The annotation and the variable for loop devices, where they are asked for and not there yet.
unfoldable pub with_loop :
    Bool → Bool × List Container → Option (Map Text) → M (Bool × List Container × Option (Map Text))
unfolding add_loop_env
with_loop false (changed, cs) a = pure (changed, cs, a)
with_loop true (changed, cs) none = crash
with_loop true (changed, cs) (some a) =
    if has_key loop_annotations_key a
    then pure (changed, cs, some a)
    else pure (true, add_loop_env cs, some (insert loop_annotations_key loop_annotations_val a))

update_changed : DaemonSet → Bool × List Container × Option (Map Text) → M (Unit {0})
update_changed d (false, cs, a) = pure tt
update_changed d (true, cs, a) = wrap (codes "update discover daemonset failed") (
    api_write
      (update_daemon_set (record d { annotations = a; pod = record d.pod { containers = cs } })))

-- A daemon set without a container panics.
update_existing : Text → Bool → DaemonSet → List Container → M (Unit {0})
unfolding update_changed
update_existing image loop d [] = crash
update_existing image loop d (c ∷ cs) = do
  r ← with_loop loop (with_image image c cs) d.annotations
  update_changed d r

-- `checkUpdateDiscoverDaemonset`
unfoldable pub check_update_discover_daemon_set : Text → Bool → M (Unit {0})
unfolding update_existing
check_update_discover_daemon_set image loop = do
  r ← attempt (get_daemon_set discover_app_name)
  elim r [
    | value d ↦ update_existing image loop d d.pod.containers
    | error x ↦
        if is_not_found x
        then if loop then make_discover_devices_daemon_set discover_app_name image loop else pure tt
        else wrap (codes "failed to detect daemonset") (fail x)
  ]
