-- ===== src/Util.antt =====
-- pkg/operator/k8sutil: status.go, deployment.go, daemonset.go, job.go, delete.go, options.go, pod.go
-- and resources.go.
pub mod Delete
pub mod Waiting
pub mod Gone
pub mod Looks
pub mod Verified
pub mod Once
pub mod Replace
pub mod Jobs
pub mod Select
mod Tests
use topolvm_operator.Base.{Bool, true, false, not, ◌||◌, Option, none, some, if◌then◌else◌, ◌++◌}
use topolvm_operator.Base.Text.{Text, codes}
use topolvm_operator.Api.{TopolvmCluster}
use topolvm_operator.Kube.{Deployment, DaemonSet}
use topolvm_operator.Env.{
  M, Action, pure, fail, ◌>>=◌, ◌>>◌, wrap, Outcome, value, error, attempt, Error, not_found,
  already_exists, conflict, invalid, new, message, api_write, update_cluster_status,
  create_deployment, update_deployment, create_daemon_set, update_daemon_set,
}
use topolvm_operator.Client.{is_not_found, put_cluster}

-- `kerrors.IsConflict`, `kerrors.IsInvalid` and `kerrors.IsAlreadyExists`
abbrev pub is_conflict : Error → Bool
is_conflict conflict = true
is_conflict _ = false

abbrev pub is_invalid : Error → Bool
is_invalid invalid = true
is_invalid _ = false

abbrev pub is_already_exists : Error → Bool
is_already_exists already_exists = true
is_already_exists _ = false

-- The status is updated, and where there is no object yet, the object.
unfoldable pub update_or_init : TopolvmCluster → M (Unit {0})
update_or_init c = do
  r ← attempt (api_write (update_cluster_status c))
  elim r [
    | value u ↦ pure tt
    | error x ↦ if is_not_found x then (do c' ← put_cluster c; pure tt) else fail x
  ]

abbrev pub status_failed : Text → Text
status_failed name = codes "failed to update object \"" ++ name ++ codes "\" status"

-- The error is returned, or the update is tried again.
unfoldable pub status_tried : TopolvmCluster → Outcome (Unit {0}) → M (Unit {0})
status_tried c (value u) = pure tt
status_tried c (error x) =
    if not (is_conflict x) || not (is_invalid x)
    then wrap (status_failed c.name) (fail x)
    else wrap (status_failed c.name) (update_or_init c)

-- `UpdateStatus`
unfoldable pub update_status : TopolvmCluster → M (Unit {0})
update_status c = do r ← attempt (update_or_init c); status_tried c r

abbrev start_failed : Text → Text → Error → Error
start_failed name kind x =
    new (codes "failed to start " ++ name ++ codes " " ++ kind ++ codes ": " ++ message x)

-- What `CreateDeployment` and `CreateDaemonSet` have in common: an update where the object exists.
create_or_update : (Error → Error) → Action → Action → M (Unit {0})
create_or_update failed create update = do
  r ← attempt (api_write create)
  elim r [
    | value u ↦ pure tt
    | error x ↦
        if is_already_exists x
        then (do
          q ← attempt (api_write update)
          elim q [ value u ↦ pure tt | error y ↦ fail (failed y) ])
        else fail (failed x)
  ]

-- `CreateDeployment`
unfoldable pub create_or_update_deployment : Deployment → M (Unit {0})
unfolding create_or_update
create_or_update_deployment d =
    create_or_update (start_failed d.name (codes "deployment")) (create_deployment d)
      (update_deployment d)

-- `CreateDaemonSet`
pub create_or_update_daemon_set : DaemonSet → M (Unit {0})
unfolding create_or_update
create_or_update_daemon_set d =
    create_or_update (start_failed d.name (codes "daemonset")) (create_daemon_set d)
      (update_daemon_set d)
