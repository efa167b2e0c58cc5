-- ===== src/PrepareVg/Provision/First.antt =====
-- `provisionFirst`: what its loop does to the volume groups, and what it records.
use topolvm_operator.Base.{
  ◌≡◌, refl, Bool, true, false, List, [], ◌∷◌, ◌++◌, All, ◌⊎◌, inl, inr, if◌then◌else◌,
}
use topolvm_operator.Base.Text.{Text, codes}
use topolvm_operator.Base.Maps.{Map, has_key}
use topolvm_operator.Api.{DeviceClass, LoopState}
use topolvm_operator.Env.{Env, Trace, Action, ◌>>=◌, pure}
use topolvm_operator.Env.Emits.{Emits, Emits-bind, Emits-pure}
use topolvm_operator.Sys.Device.{LocalDisk}
use topolvm_operator.Sys.Lvm.{lvm, pvcreate}
use topolvm_operator.Sys.Lvm.Remove.{ran}
use topolvm_operator.PrepareVg.{Classes}
use topolvm_operator.PrepareVg.Create.{create_vg}
use topolvm_operator.PrepareVg.Create.Makes.{create_vg-Makes}
use topolvm_operator.Sys.Lvm.Makes.{Makes}
use topolvm_operator.PrepareVg.Provision.{Progress, add_created, first_class, first_classes}

-- A `pvcreate`, or a `vgcreate` of a group that was not there.
abbrev pub MakesNew : Map Text → Action → Type 0
MakesNew vgs a =
    ((n : Text) × (a ≡ ran (pvcreate n)))
    ⊎ ((vg : Text) × (names : List Text) × (has_key vg vgs ≡ false)
        × (a ≡ ran (lvm (codes "vgcreate") (vg ∷ names))))

new_of :
    (vgs : Map Text) (vg : Text) (a : Action) → has_key vg vgs ≡ false → Makes vg a → MakesNew vgs a
new_of vgs vg a h (inl m) = inl m
new_of vgs vg a h (inr (names, p)) = inr (vg, names, h, p)

All-new :
    (vgs : Map Text) (vg : Text) (acts : List Action)
    → has_key vg vgs ≡ false
    → All (Makes vg) acts
    → All (MakesNew vgs) acts
All-new vgs vg [] h a = tt
All-new vgs vg (x ∷ acts) h (m, a) = (new_of vgs vg x h m, All-new vgs vg acts h a)

module _ (loop_map : Map LoopState) (disks : Map LocalDisk) (vgs : Map Text) where
  create-new :
      (class : DeviceClass) (cs : Classes)
      → has_key class.vg_name vgs ≡ false
      → Emits (MakesNew vgs) (create_vg loop_map disks class cs)
  create-new class cs h = record {
    at = λ e t.
        let (acts, p, a) = (create_vg-Makes loop_map disks class cs).at e t in
        (acts, p, All-new vgs class.vg_name acts h a);
  }

  branch :
      (b : Bool) (class : DeviceClass) (p q : Progress)
      → has_key class.vg_name vgs ≡ b
      → Emits (MakesNew vgs) (
          if b
          then pure q
          else (create_vg loop_map disks class p.classes >>= λ c. pure (add_created p c)))
  branch true class p q h = Emits-pure q
  branch false class p q h =
      Emits-bind (create_vg loop_map disks class p.classes) (λ c. pure (add_created p c))
        (create-new class p.classes h) (λ c. Emits-pure (add_created p c))

  first_class-MakesNew :
      (class : DeviceClass) (p : Progress)
      → Emits (MakesNew vgs) (first_class loop_map disks vgs class p)
  unfolding first_class
  first_class-MakesNew class p = branch (has_key class.vg_name vgs) class p _ refl

  first_classes-Emits :
      (cs : List DeviceClass) (p : Progress)
      → Emits (MakesNew vgs) (first_classes loop_map disks vgs cs p)
  unfolding first_classes
  first_classes-Emits [] p = Emits-pure p
  first_classes-Emits (c ∷ cs) p =
      Emits-bind (first_class loop_map disks vgs c p) (λ p'. first_classes loop_map disks vgs cs p')
        (first_class-MakesNew c p) (first_classes-Emits cs)

-- Whatever the node answers, the loop of the first provisioning only makes physical volumes, and
-- volume groups whose names are not among the groups that were there.
pub first_classes-MakesNew :
    (loop_map : Map LoopState) (disks : Map LocalDisk) (vgs : Map Text) (cs : List DeviceClass)
    (p : Progress) (e : Env) (t : Trace)
    → (acts : Trace) × ((first_classes loop_map disks vgs cs p e t).1 ≡ t ++ acts)
      × All (MakesNew vgs) acts
first_classes-MakesNew loop_map disks vgs cs p e t =
    (first_classes-Emits loop_map disks vgs cs p).at e t
