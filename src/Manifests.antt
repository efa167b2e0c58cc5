-- ===== src/Manifests.antt =====
-- The manifests of the operator's pods: pkg/operator/volumegroup/vgmanager.go,
-- pkg/operator/node/node.go, pkg/operator/volumectr/volume_controller.go and
-- pkg/operator/discover/daemon.go. Limits of resources, security contexts, probes, ports, tolerations
-- and strategies are left out.
pub mod Job
pub mod Node
pub mod Controller
pub mod Discover
pub mod Mounts
mod Tests
use topolvm_operator.Base.{List, [], ◌∷◌, ◌++◌, if◌then◌else◌}
use topolvm_operator.Base.Text.{Text, codes}
use topolvm_operator.Go.Strings.{has_suffix}
use topolvm_operator.Kube.{EnvVar, VolumeMount, Volume, VolumeSource, host_path}

abbrev pub mount : Text → Text → VolumeMount
mount name path = record { name = name; mount_path = path }

abbrev pub volume : Text → VolumeSource → Volume
volume name source = record { name = name; source = source }

abbrev pub host_volume : Text → Text → Volume
host_volume name path = volume name (host_path path)

abbrev pub variable : Text → Text → EnvVar
variable name value = record { name = name; value = value; field_path = [] }

abbrev pub from_field : Text → Text → EnvVar
from_field name path = record { name = name; value = []; field_path = path }

-- `getAbsoluteKubeletPath`
unfoldable pub get_absolute_kubelet_path : Text → Text
get_absolute_kubelet_path name = if has_suffix name (codes "/") then name else name ++ codes "/"
