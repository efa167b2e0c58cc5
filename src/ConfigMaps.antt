-- ===== src/ConfigMaps.antt =====
-- pkg/operator/k8sutil: configmap.go (`CreateOrPatchConfigmap`, `PatchConfigMap`) and
-- k8sutils.go (`TruncateNodeName`).
use topolvm_operator.Base.{ℕ, ◌+◌, ◌++◌, length, ltb, if◌then◌else◌}
use topolvm_operator.Base.Text.{Text}
use topolvm_operator.Env.{
  M, ConfigMap, create_config_map, patch_config_map, ◌>>=◌, Outcome, value, error, attempt,
  api_get_config_map, api_write,
}

-- `validation.DNS1035LabelMaxLength`
abbrev pub label_max_length : ℕ
label_max_length = 63

-- The format is a prefix with `%s` behind it.
unfoldable pub truncate_node_name : (Text → Text) → Text → Text → Text
truncate_node_name hash prefix node =
    if ltb label_max_length (length node + length prefix)
    then prefix ++ hash node
    else prefix ++ node

-- The patch is made from the old and the new object by a library of Kubernetes.
unfoldable pub patch : ConfigMap → ConfigMap → M (Unit {0})
patch old new = api_write (patch_config_map old.name new)

create_or_patch_found : ConfigMap → Outcome ConfigMap → M (Unit {0})
create_or_patch_found cm (value existing) = patch existing cm
create_or_patch_found cm (error x) = api_write (create_config_map cm)

pub create_or_patch : ConfigMap → M (Unit {0})
unfolding create_or_patch_found
create_or_patch cm = do r ← attempt (api_get_config_map cm.name); create_or_patch_found cm r
