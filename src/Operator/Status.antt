-- ===== src/Operator/Status.antt =====
-- `UpdateStatus` of controllers/topolvmcluster_controller.go: the state of a node goes into the status
-- of the cluster.
pub mod Refines
use topolvm_operator.Base.{Bool, Option, none, some, List, [], ◌∷◌, ◌++◌, if◌then◌else◌}
use topolvm_operator.Base.Text.{Text, codes, same}
use topolvm_operator.Api.{NodeStorageState, ClusterStatus, TopolvmCluster}
use topolvm_operator.Env.{M, pure, fail, crash, ◌>>=◌, wrap, Outcome, value, error, attempt}
use topolvm_operator.Client.{is_not_found, get_cluster}
use topolvm_operator.Util.{update_status}

-- The first entry of the node is replaced, or the state goes behind the others.
unfoldable pub put_state : NodeStorageState → List NodeStorageState → List NodeStorageState
put_state state [] = state ∷ []
put_state state (n ∷ ns) =
    let rest = put_state state ns in if same n.node state.node then state ∷ ns else n ∷ rest

unfoldable pub with_state : NodeStorageState → TopolvmCluster → TopolvmCluster
unfolding put_state
with_state state c = record c {
  status = record c.status { node_storage_status = put_state state c.status.node_storage_status };
}

-- Of a cluster, whose name is not set before the first reconciliation.
unfoldable pub update_node_status : Option Text → NodeStorageState → M (Unit {0})
update_node_status none state = crash
update_node_status (some name) state = do
  r ← attempt (get_cluster name)
  elim r [
    | value c ↦
        wrap (codes "failed to update cluster \"" ++ name ++ codes "\" status")
          (update_status (with_state state c))
    | error x ↦
        if is_not_found x
        then pure tt
        else wrap
            (codes "failed to retrieve topolvm cluster \""
              ++ name
              ++ codes "\" to update topolvm cluster status ")
            (fail x)
  ]
