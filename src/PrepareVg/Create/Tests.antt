-- ===== src/PrepareVg/Create/Tests.antt =====
-- Classes whose disk is free, is not there, or is a loop device without a name.
use topolvm_operator.Base.{◌≡◌, ◌≢◌, refl, true, false, some, List, [], ◌∷◌, map, All, subst}
use topolvm_operator.Base.Text.{Text, codes, same}
use topolvm_operator.Base.Maps.{Map, lookup, has_key}
use topolvm_operator.Api.{Disk, DeviceClass, ClassState}
use topolvm_operator.Env.{ok}
use topolvm_operator.Env.World.{broken_node, lvm_node}
use topolvm_operator.Sys.Device.{LocalDisk}
use topolvm_operator.Sys.Lvm.{create_volume_group}
use topolvm_operator.PrepareVg.{Classes, resolve, get_device_name, loop}
use topolvm_operator.PrepareVg.Create.{Created, create_vg, create_vg_retry, offline}
use topolvm_operator.PrepareVg.Create.Checks.{IsFree, create_vg-refuses, create_vg-unnamed_loop}
use topolvm_operator.PrepareVg.Create.Records.{IsMoved, create_vg_retry-IsMoved}

abbrev sdb : Disk
sdb = record { name = codes "/dev/sdb"; type = codes "disk"; auto = false; path = []; size = 0 }

abbrev loop1 : Disk
loop1 = record { name = codes "loop1"; type = loop; auto = true; path = codes "/data"; size = 10 }

abbrev class_of : Disk → DeviceClass
class_of d = record {
  class_name = codes "hdd";
  vg_name = codes "vg1";
  device = d ∷ [];
  default = true;
  spare_gb = 0;
  stripe = 0;
  stripe_size = [];
}

abbrev free_disk : LocalDisk
free_disk = record {
  name = codes "sdb";
  parent = [];
  has_children = false;
  dev_links = [];
  size = 10737418240;
  uuid = [];
  serial = [];
  type = codes "disk";
  rotational = false;
  readonly = false;
  partitions = [];
  filesystem = [];
  vendor = [];
  model = [];
  wwn = [];
  wwn_vendor_extension = [];
  empty = false;
  real_path = [];
  mount_point = [];
  kernel_name = codes "sdb";
  encrypted = false;
}

abbrev free : Map LocalDisk
free = (codes "/dev/sdb", free_disk) ∷ []

abbrev none_yet : Classes
none_yet = record { suc = []; failed = [] }

abbrev failed_before : Classes
failed_before = record {
  suc = [];
  failed =
      (
        codes "vg1",
        record {
          name = codes "hdd";
          vg_name = codes "vg1";
          state = [];
          message = [];
          device_states = [];
        },
      )
      ∷ [];
}

not-IsFree : ¬ All (IsFree [] []) (class_of sdb).device
unfolding resolve get_device_name lookup same
not-IsFree (h, rest) = absurd (cc (h sdb refl))

is_free : All (IsFree [] free) (class_of sdb).device
unfolding resolve get_device_name lookup same
is_free =
    ((λ d' h. let p : sdb ≡ d' = cc in subst (λ (d : Disk). has_key d.name free ≡ true) p refl), tt)

create_vg-refuses_example :
    (r : Created) × (s : ClassState) × (names : List Text) × (create_vg [] []
        (class_of sdb)
        none_yet
        broken_node
        []
      ≡ (ok r, []))
    × (r.success ≡ false)
    × (r.classes.suc ≡ [])
    × (lookup (codes "vg1") r.classes.failed ≡ some s)
    × (s.device_states ≡ map offline names)
    × (names ≢ [])
create_vg-refuses_example =
    create_vg-refuses [] [] (class_of sdb) none_yet broken_node [] not-IsFree

no_name : get_device_name [] (codes "loop1") ≡ []
unfolding get_device_name lookup
no_name = refl

create_vg-unnamed_loop_example :
    (create_vg [] [] (class_of loop1) none_yet lvm_node []).1
    ≡ (create_volume_group (loop1 ∷ []) (codes "vg1") lvm_node []).1
create_vg-unnamed_loop_example =
    create_vg-unnamed_loop [] [] (class_of loop1) none_yet loop1 lvm_node [] refl refl refl no_name

failed_there : has_key (codes "vg1") failed_before.failed ≡ true
unfolding lookup same
failed_there = refl

create_vg_retry-IsMoved_example :
    (r : Created) × ((create_vg_retry [] free (class_of sdb) failed_before lvm_node []).0 ≡ ok r)
    × IsMoved (codes "vg1") failed_before r
create_vg_retry-IsMoved_example =
    create_vg_retry-IsMoved [] free (class_of sdb) failed_before lvm_node [] failed_there
