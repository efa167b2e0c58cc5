-- ===== src/PrepareVg/Provision/Tests.antt =====
-- The first provisioning of one class, on a node where its group is not there or is there already.
use topolvm_operator.Base.{◌≡◌, true, List, [], ◌∷◌, ◌++◌, All}
use topolvm_operator.Base.Text.{Text, codes}
use topolvm_operator.Base.Maps.{Map}
use topolvm_operator.Api.{DeviceClass}
use topolvm_operator.Env.{Trace, ok}
use topolvm_operator.Env.World.{lvm_node, broken_node}
use topolvm_operator.PrepareVg.Create.{create_vg}
use topolvm_operator.PrepareVg.Provision.{Progress, first_classes, next_class, no_classes}
use topolvm_operator.PrepareVg.Provision.First.{MakesNew, first_classes-MakesNew}
use topolvm_operator.PrepareVg.Provision.Covered.{
  IsCovered, IsKept, IsOther, first_classes-IsCovered,
}
use topolvm_operator.PrepareVg.Provision.Existing.{next_run, next_class-forgets_existing}

abbrev class_named : Text → DeviceClass
class_named vg = record {
  class_name = codes "hdd";
  vg_name = vg;
  device = [];
  default = true;
  spare_gb = 0;
  stripe = 0;
  stripe_size = [];
}

abbrev two_classes : List DeviceClass
two_classes = class_named (codes "vg1") ∷ class_named (codes "vg2") ∷ []

abbrev groups : Map Text
groups = (codes "vg1", codes "vg1") ∷ []

abbrev start : Progress
start = record { classes = no_classes; suc_vgs = [] }

first_classes-MakesNew_example :
    (acts : Trace) × ((first_classes [] [] groups two_classes start lvm_node []).1 ≡ [] ++ acts)
    × All (MakesNew groups) acts
first_classes-MakesNew_example = first_classes-MakesNew [] [] groups two_classes start lvm_node []

first_classes-IsCovered_example :
    (p' : Progress) × ((first_classes [] [] groups two_classes start broken_node []).0 ≡ ok p')
    × All (IsCovered p'.classes) two_classes
    × ((j : Text) → IsOther j two_classes → IsKept start.classes p'.classes j)
first_classes-IsCovered_example =
    first_classes-IsCovered [] [] groups two_classes start broken_node []

next_class-forgets_existing_example :
    (next_class [] []
      (class_named (codes "vg1"))
      (next_run (class_named (codes "vg1")))
      lvm_node
      []).1
    ≡ (create_vg [] []
        (class_named (codes "vg1"))
        (next_run (class_named (codes "vg1"))).classes
        lvm_node
        []).1
next_class-forgets_existing_example =
    next_class-forgets_existing [] [] (class_named (codes "vg1")) lvm_node [] (λ h. cc)
