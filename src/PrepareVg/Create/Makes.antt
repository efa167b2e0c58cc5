-- ===== src/PrepareVg/Create/Makes.antt =====
-- What `createVg` puts on the trace, however it ends.
use topolvm_operator.Base.{List, [], ◌∷◌}
use topolvm_operator.Base.Text.{Text}
use topolvm_operator.Base.Maps.{Map}
use topolvm_operator.Api.{DeviceClass, LoopState}
use topolvm_operator.Env.{pure, attempt}
use topolvm_operator.Env.Emits.{Emits, Emits-bind, Emits-attempt, Emits-pure}
use topolvm_operator.Sys.Device.{LocalDisk}
use topolvm_operator.Sys.Lvm.{create_volume_group}
use topolvm_operator.Sys.Lvm.Makes.{Makes, create_volume_group-Makes}
use topolvm_operator.PrepareVg.{Classes}
use topolvm_operator.PrepareVg.Create.{check_disks, create_checked, created, create_vg}

checked-Makes :
    (class : DeviceClass) (cs : Classes) (names : List Text)
    → Emits (Makes class.vg_name) (create_checked class cs names)
unfolding create_checked
checked-Makes class cs [] =
    Emits-bind (attempt (create_volume_group class.device class.vg_name))
      (λ r. pure (created class cs r))
      (Emits-attempt _ (create_volume_group-Makes class.device class.vg_name))
      (λ r. Emits-pure (created class cs r))
checked-Makes class cs (n ∷ names) = Emits-pure _

pub create_vg-Makes :
    (loop_map : Map LoopState) (disks : Map LocalDisk) (class : DeviceClass) (cs : Classes)
    → Emits (Makes class.vg_name) (create_vg loop_map disks class cs)
unfolding create_vg
create_vg-Makes loop_map disks class cs =
    checked-Makes (record class { device = (check_disks loop_map disks class.device).devices }) cs
      (check_disks loop_map disks class.device).missing
