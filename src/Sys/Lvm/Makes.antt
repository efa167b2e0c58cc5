-- ===== src/Sys/Lvm/Makes.antt =====
-- What making a volume group puts on the trace, however it ends.
use topolvm_operator.Base.{◌≡◌, refl, List, [], ◌∷◌, ◌⊎◌, inl, inr}
use topolvm_operator.Base.Text.{Text, codes}
use topolvm_operator.Api.{Disk}
use topolvm_operator.Env.{Action}
use topolvm_operator.Env.Emits.{Emits, Emits-bind, Emits-execute, Emits-pure}
use topolvm_operator.Sys.Lvm.{
  wrap_exec_command, nsenter, lvm, pvcreate, each, names_of, create_volume_group,
  create_physical_volume, expand_volume_group,
}
use topolvm_operator.Sys.Lvm.Remove.{ran}

-- A `pvcreate`, or a `vgcreate` of that group.
abbrev pub Makes : Text → Action → Type 0
Makes vg a =
    ((n : Text) × (a ≡ ran (pvcreate n)))
    ⊎ ((names : List Text) × (a ≡ ran (lvm (codes "vgcreate") (vg ∷ names))))

pub runs : {P : Action → Type 0} (c : List Text) → P (ran c) → Emits P (wrap_exec_command c)
unfolding wrap_exec_command
runs c h = Emits-execute (nsenter c) h

each-Makes : (vg : Text) (names : List Text) → Emits (Makes vg) (each pvcreate names)
unfolding each
each-Makes vg [] = Emits-pure tt
each-Makes vg (n ∷ names) =
    Emits-bind (wrap_exec_command (pvcreate n)) (λ _. each pvcreate names)
      (runs (pvcreate n) (inl (n, refl))) (λ _. each-Makes vg names)

pub create_volume_group-Makes :
    (disks : List Disk) (vg : Text) → Emits (Makes vg) (create_volume_group disks vg)
unfolding create_volume_group
create_volume_group-Makes disks vg =
    Emits-bind (each pvcreate (names_of disks))
      (λ _. wrap_exec_command (lvm (codes "vgcreate") (vg ∷ names_of disks)))
      (each-Makes vg (names_of disks))
      (λ _. runs (lvm (codes "vgcreate") (vg ∷ names_of disks)) (inr (names_of disks, refl)))

pub create_physical_volume-Emits :
    {P : Action → Type 0} (n : Text) → P (ran (pvcreate n)) → Emits P (create_physical_volume n)
unfolding create_physical_volume
create_physical_volume-Emits n h = runs (pvcreate n) h

pub expand_volume_group-Emits :
    {P : Action → Type 0} (vg : Text) (names : List Text)
    → P (ran (lvm (codes "vgextend") (vg ∷ names)))
    → Emits P (expand_volume_group vg names)
unfolding expand_volume_group
expand_volume_group-Emits vg names h = runs (lvm (codes "vgextend") (vg ∷ names)) h
