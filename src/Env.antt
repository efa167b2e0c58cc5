-- ===== src/Env.antt =====
-- The world that the program acts on. An action of the program, a process that it runs or a call of
-- the Kubernetes API, goes on a trace, and what comes back is a function of the trace so far: `Env`
-- answers for the processes (pkg/util/exec/exec.go), the API server, the order in which Go visits a
-- map, the random identifiers, and the libraries for JSON, YAML, hashes and identifiers.
pub mod Laws
pub mod Emits
pub mod Costs
pub mod Ensures
pub mod Safe
pub mod World
use topolvm_operator.Base.{
  ℕ, Bool, true, false, Option, none, some, List, [], ◌∷◌, ◌++◌, if◌then◌else◌,
}
use topolvm_operator.Base.Text.{Text, codes}
use topolvm_operator.Base.Maps.{Map, keys}
use topolvm_operator.Api
use topolvm_operator.Api.{NodeStorageState, TopolvmCluster}
use topolvm_operator.Kube.{Owner, Deployment, DaemonSet, Job, Node, Kind}
use topolvm_operator.Cluster
use topolvm_operator.Cluster.{LmvdConf}
use topolvm_operator.Go.Strings.{trim_space}

-- `exited` is an `*exec.ExitError` with its status, `unstarted` an `*exec.Error`, `not_found` an
-- error of the API with that reason, as `already_exists`, `conflict` and `invalid` are; `new` is any
-- other, which shows its text alone.
pub data Error : Type 0 where
  exited : ℕ → Text → Error
  unstarted : Text → Error
  not_found : Error
  already_exists : Error
  conflict : Error
  invalid : Error
  new : Text → Error

-- `err.Error()`
unfoldable pub message : Error → Text
message (exited n m) = m
message (unstarted m) = m
message not_found = codes "not found"
message already_exists = codes "already exists"
message conflict = codes "conflict"
message invalid = codes "invalid"
message (new m) = m

-- A call returns, returns an error, or panics.
pub data Result (A : Type 0) : Type 0 where
  ok : A → Result A
  err : Error → Result A
  panic : Result A

-- What a process leaves behind.
pub record Process : Type 0 where
  pub stdout : Text
  pub stderr : Text
  pub error : Option Error

-- A ConfigMap of the API, with the fields that the program sets or reads.
pub record ConfigMap : Type 0 where
  pub name : Text
  pub namespace : Text
  pub labels : Map Text
  pub annotations : Map Text
  pub owners : Option (List Owner)
  pub data_map : Map Text

pub data Action : Type 0 where
  output : List Text → Action
  execute : List Text → Action
  get_config_map : Text → Action
  create_config_map : ConfigMap → Action
  update_config_map : ConfigMap → Action
  patch_config_map : Text → ConfigMap → Action
  get_object : Kind → Text → Action
  list_objects : Kind → Text → Action
  delete_object : Kind → Text → Action
  create_named : Kind → Text → Action
  create_deployment : Deployment → Action
  update_deployment : Deployment → Action
  create_daemon_set : DaemonSet → Action
  update_daemon_set : DaemonSet → Action
  create_job : Job → Action
  update_cluster : TopolvmCluster → Action
  update_cluster_status : TopolvmCluster → Action
  patch_node : Node → Node → Action
  get_server_version : Action
  go : Text → Action

abbrev pub Trace : Type 0
Trace = List Action

-- What the API server and the libraries of Kubernetes answer to the operator.
pub record Answers : Type 0 where
  pub found_cluster : Text → Result TopolvmCluster
  pub listed_clusters : Result (Option (List TopolvmCluster))
  pub updated_cluster : TopolvmCluster → Result TopolvmCluster
  pub found_deployment : Text → Result Deployment
  pub listed_deployments : Text → Result (List Deployment)
  pub found_daemon_set : Text → Result DaemonSet
  pub found_job : Text → Result Job
  pub listed_nodes : Result (List Node)
  pub listed_pods : Text → Result (List Text)
  pub pod_owners : Text → Result (Option (List Owner))
  pub found_named : Kind → Text → Option Error
  pub server_version : Result (Text × Text)
  pub object_kind : TopolvmCluster → Result (Text × Text)
  pub variable : Text → Option Text

pub record Env : Type 0 where
  pub kube : Trace → Answers
  pub process : Trace → List Text → Process
  pub in_path : Trace → Text → Bool
  pub order : Trace → List Text → List Text
  pub new_uuid : Trace → Text
  pub parse_uuid : Text → Option Text
  pub hash : Text → Text
  pub found_config_map : Trace → Text → Result ConfigMap
  pub write_error : Trace → Option Error
  pub marshal_state : NodeStorageState → Result Text
  pub unmarshal_state : Text → Result NodeStorageState
  pub marshal_conf : LmvdConf → Result Text
  pub unmarshal_conf : Text → Result LmvdConf
  pub marshal_class : Api.DeviceClass → Result Text
  pub unmarshal_class : Text → Result Cluster.DeviceClass

abbrev pub M : Type 0 → Type 0
M A = Env → Trace → Result A × Trace

module _ {A : Type 0} where
  abbrev pub pure : A → M A
  pure a e t = (ok a, t)

  abbrev pub fail : Error → M A
  fail x e t = (err x, t)

  abbrev pub crash : M A
  crash e t = (panic, t)

  abbrev pub lift : Result A → M A
  lift r e t = (r, t)

  -- A value of the environment, with no action.
  abbrev pub asks : (Env → Trace → A) → M A
  asks f e t = (ok (f e t), t)

  -- A library call that may fail, with no action.
  abbrev pub asks_result : (Env → Result A) → M A
  asks_result f e t = (f e, t)

module _ {A B : Type 0} where
  abbrev pub continue : (A → M B) → Env → Result A × Trace → Result B × Trace
  continue f e (ok a, t) = f a e t
  continue f e (err x, t) = (err x, t)
  continue f e (panic, t) = (panic, t)

  infixl 10 ◌>>=◌ ◌>>◌
  abbrev pub ◌>>=◌ : M A → (A → M B) → M B
  ◌>>=◌ m f e t = continue f e (m e t)

  abbrev pub ◌>>◌ : M A → M B → M B
  m >> k = m >>= λ _. k

-- The result of a call whose error is looked at.
pub data Outcome (A : Type 0) : Type 0 where
  value : A → Outcome A
  error : Error → Outcome A

module _ {A : Type 0} where
  abbrev pub attempted : Result A × Trace → Result (Outcome A) × Trace
  attempted (ok a, t) = (ok (value a), t)
  attempted (err x, t) = (ok (error x), t)
  attempted (panic, t) = (panic, t)

  -- `v, err := m` where the code goes on from an error.
  abbrev pub attempt : M A → M (Outcome A)
  attempt m e t = attempted (m e t)

-- `errors.Wrap(err, text)`, and `fmt.Errorf` with the text of a cause at its end.
abbrev pub wrapped : {A : Type 0} → Text → Result A × Trace → Result A × Trace
wrapped text (ok a, t) = (ok a, t)
wrapped text (err x, t) = (err (new (text ++ codes ": " ++ message x)), t)
wrapped text (panic, t) = (panic, t)

abbrev pub wrap : {A : Type 0} → Text → M A → M A
wrap text m e t = wrapped text (m e t)

abbrev pub done : Option Error → Result (Unit {0})
done none = ok tt
done (some x) = err x

-- `assertErrorType`
unfoldable pub assert_error_type : Process → Error → Text
assert_error_type p (exited n m) = p.stderr
assert_error_type p (unstarted m) = m
assert_error_type p _ = []

abbrev pub finished : Process → Option Error → Text × Option Error
unfolding assert_error_type trim_space
finished p none = (trim_space p.stdout, none)
finished p (some x) = (trim_space (p.stdout ++ codes ". " ++ assert_error_type p x), some x)

-- `runCommandWithOutput(cmd, false)`: the output is there beside an error too.
unfoldable pub run_command_with_output : Process → Text × Option Error
run_command_with_output p = finished p p.error

-- `ExecuteCommandWithOutput`, with the output that stands beside an error.
unfoldable pub execute_command_with_status : List Text → M (Text × Option Error)
unfolding run_command_with_output
execute_command_with_status c e t =
    (ok (run_command_with_output (e.process t c)), t ++ output c ∷ [])

abbrev pub or_error : Text × Option Error → Result Text
or_error (out, none) = ok out
or_error (out, some x) = err x

-- `ExecuteCommandWithOutput` where a caller drops the output of a failed command.
unfoldable pub execute_command_with_output : List Text → M Text
unfolding execute_command_with_status
execute_command_with_output c = do r ← execute_command_with_status c; lift (or_error r)

-- `ExecuteCommand`
unfoldable pub execute_command : List Text → M (Unit {0})
execute_command c e t = (done (e.process t c).error, t ++ execute c ∷ [])

-- `for key := range m`: Go chooses the order.
unfoldable pub range : {V : Type 0} → Map V → M (List Text)
range m = asks (λ e t. e.order t (keys m))

-- The calls of the API server.
abbrev pub request : {A : Type 0} → Action → (Answers → Result A) → M A
request a f e t = (f (e.kube t), t ++ a ∷ [])

unfoldable pub api_get_config_map : Text → M ConfigMap
api_get_config_map name e t = (e.found_config_map t name, t ++ get_config_map name ∷ [])

unfoldable pub api_write : Action → M (Unit {0})
api_write a e t = (done (e.write_error t), t ++ a ∷ [])

-- `go f()`, with the name of what runs beside the program from then on.
unfoldable pub spawn : Text → M (Unit {0})
spawn name e t = (ok tt, t ++ go name ∷ [])
