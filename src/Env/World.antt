-- ===== src/Env/World.antt =====
-- A concrete world for the tests: processes that answer by their command lines.
use topolvm_operator.Base.{true, false, none, some, List, [], ◌∷◌, any, if◌then◌else◌}
use topolvm_operator.Base.Text.{Text, codes, same}
use topolvm_operator.Env.{Env, Answers, Process, ok, err, not_found, exited, new}

abbrev pub answers : Text → Process
answers out = record { stdout = out; stderr = []; error = none }

abbrev pub failing : Process
failing = record {
  stdout = [];
  stderr = codes "no such group";
  error = some (exited 5 (codes "exit status 5"));
}

-- The last word of a command line.
abbrev pub last_word : List Text → Text
last_word [] = []
last_word (w ∷ []) = w
last_word (w ∷ v ∷ ws) = last_word (v ∷ ws)

-- An API server that has nothing.
abbrev pub no_objects : Answers
no_objects = record {
  found_cluster = λ name. err not_found;
  listed_clusters = ok none;
  updated_cluster = λ c. ok c;
  found_deployment = λ name. err not_found;
  listed_deployments = λ label. ok [];
  found_daemon_set = λ name. err not_found;
  found_job = λ name. err not_found;
  listed_nodes = ok [];
  listed_pods = λ label. ok [];
  pod_owners = λ name. err not_found;
  found_named = λ kind name. some not_found;
  server_version = ok (codes "1", codes "22");
  object_kind = λ c. ok (codes "topolvm.cybozu.com/v2", codes "TopolvmCluster");
  variable = λ name. none;
}

abbrev pub world : (List Text → Process) → Env
world process = record {
  kube = λ t. no_objects;
  process = λ t c. process c;
  in_path = λ t c. false;
  order = λ t ks. ks;
  new_uuid = λ t. codes "file1";
  parse_uuid = λ text. some text;
  hash = λ text. text;
  found_config_map = λ t name. err not_found;
  write_error = λ t. none;
  marshal_state = λ s. ok s.node;
  unmarshal_state = λ text. err (new (codes "unexpected end of JSON input"));
  marshal_conf = λ c. ok c.socket_name;
  unmarshal_conf = λ text. ok (record { socket_name = text; device_classes = [] });
  marshal_class = λ c. ok c.class_name;
  unmarshal_class = λ text. ok (record {
    name = text;
    volume_group = text;
    default = true;
    spare_gb = 0;
    stripe = 0;
    stripe_size = [];
  });
}

-- A node where every command fails, and one where the reports name two volumes, and none is in use.
abbrev pub broken_node : Env
broken_node = world (λ c. failing)

abbrev pub lvm_answer : List Text → Process
lvm_answer c =
    answers (if any (same (codes "pv_name")) c then codes "  LVM2_PV_NAME='/dev/sdb'" else [])

abbrev pub lvm_node : Env
lvm_node = world lvm_answer

-- A node with one free disk, sdb of 10 GiB.
abbrev pub sdb_properties : Text
sdb_properties = codes "SIZE=\"10737418240\" TYPE=\"disk\" NAME=\"/dev/sdb\" KNAME=\"/dev/sdb\""

abbrev pub disk_answer : List Text → Process
disk_answer c = answers (
    if same (last_word c) (codes "KNAME")
    then codes "sdb"
    else if same (last_word c) (codes "--query=property")
    then []
    else if any (same (codes "udevadm")) c
    then codes "ID_SERIAL=QM1"
    else sdb_properties)

abbrev pub disk_node : Env
disk_node = world disk_answer

-- An API server that gives some answers whatever happened before, and takes all writes.
abbrev pub kube_world : Answers → Env
kube_world answers = record (world (λ c. failing)) { kube = λ t. answers }
