-- ===== src/PrepareVg/Resize/Expand.antt =====
-- `checkVgIfExpand`: on which devices it makes physical volumes, and what it adds to the group.
use topolvm_operator.Base.{
  ◌≡◌, ◌∙◌, refl, ap, Bool, true, false, Option, none, some, List, [], ◌∷◌, ◌++◌, All, All-append,
  ◌⊎◌, inl, inr, if◌then◌else◌,
}
use topolvm_operator.Base.Text.{Text, codes}
use topolvm_operator.Base.Maps.{Map, has_key}
use topolvm_operator.Api.{Disk, DeviceClass, LoopState, ClassState}
use topolvm_operator.Env.{
  Env, Trace, Result, ok, err, panic, Action, M, pure, continue, ◌>>=◌, Outcome, value, error,
  attempt,
}
use topolvm_operator.Env.Laws.{attempt-eq}
use topolvm_operator.Env.Emits.{Emits, Emits-bind, Emits-attempt, Emits-pure, Emits-crash}
use topolvm_operator.Sys.Lvm.{
  lvm, pvcreate, get_physical_volume, create_physical_volume, expand_volume_group,
}
use topolvm_operator.Sys.Lvm.Remove.{ran}
use topolvm_operator.Sys.Lvm.Makes.{create_physical_volume-Emits, expand_volume_group-Emits}
use topolvm_operator.PrepareVg.{resolve}
use topolvm_operator.PrepareVg.Resize.{
  changed, change_class, Expansion, pv_created, expand_disk, expand_disks, expanded, extend,
  expand_listed, check_vg_if_expand,
}

-- A `pvcreate` on a device that is not among the volumes, or a `vgextend` of the group by such
-- devices.
abbrev pub Extends : Text → Map Text → Action → Type 0
Extends vg pvs a =
    ((n : Text) × (has_key n pvs ≡ false) × (a ≡ ran (pvcreate n)))
    ⊎ ((names : List Text) × All (λ n. has_key n pvs ≡ false) names
        × (a ≡ ran (lvm (codes "vgextend") (vg ∷ names))))

module _ {A B C : Type 0} where
  continue_assoc :
      (f : A → M B) (g : B → M C) (e : Env) (r : Result A) (t : Trace)
      → continue g e (continue f e (r, t)) ≡ continue (λ a. f a >>= g) e (r, t)
  continue_assoc f g e (ok a) t = refl
  continue_assoc f g e (err x) t = refl
  continue_assoc f g e panic t = refl

  bind_assoc :
      (m : M A) (f : A → M B) (g : B → M C) (e : Env) (t : Trace)
      → ((m >>= f) >>= g) e t ≡ (m >>= λ a. f a >>= g) e t
  bind_assoc m f g e t = let (r, t') = m e t in continue_assoc f g e r t'

  -- What is shown of the parts in turn holds of the parts as they are grouped.
  Emits-assoc :
      {P : Action → Type 0} (m : M A) (f : A → M B) (g : B → M C)
      → Emits P (m >>= λ a. f a >>= g)
      → Emits P ((m >>= f) >>= g)
  Emits-assoc m f g h = record {
    at = λ e t. let (acts, p, a) = h.at e t in (acts, ap (λ r. r.1) (bind_assoc m f g e t) ∙ p, a);
  }

changed-Emits :
    {P : Action → Type 0} (vg : Text) (f : ClassState → ClassState) (suc : Map ClassState)
    (o : Option ClassState)
    → Emits P (changed vg f suc o)
unfolding changed
changed-Emits vg f suc none = Emits-crash
changed-Emits vg f suc (some s) = Emits-pure _

change_class-Emits :
    {P : Action → Type 0} (vg : Text) (f : ClassState → ClassState) (suc : Map ClassState)
    → Emits P (change_class vg f suc)
unfolding change_class
change_class-Emits vg f suc = changed-Emits vg f suc _

module _ (loop_map : Map LoopState) (vg : Text) (pvs : Map Text) where
  abbrev IsNew : Text → Type 0
  IsNew n = has_key n pvs ≡ false

  abbrev P : Action → Type 0
  P = Extends vg pvs

  expanded-Emits : (s : Expansion) (o : Outcome (Unit {0})) → Emits P (expanded vg s o)
  unfolding expanded
  expanded-Emits s (error x) =
      Emits-bind (change_class vg _ s.suc) _ (change_class-Emits vg _ s.suc) (λ c. Emits-pure _)
  expanded-Emits s (value u) =
      Emits-bind (change_class vg _ s.suc) _ (change_class-Emits vg _ s.suc) (λ c. Emits-pure _)

  extend-Emits : (s : Expansion) (names : List Text) → All IsNew names → Emits P (extend vg s names)
  unfolding extend
  extend-Emits s [] a = Emits-pure _
  extend-Emits s (n ∷ names) a =
      Emits-bind (attempt (expand_volume_group vg (n ∷ names))) (λ r. expanded vg s r)
        (Emits-attempt _ (expand_volume_group-Emits vg (n ∷ names) (inr (n ∷ names, a, refl))))
        (expanded-Emits s)

  module _ {B : Type 0} (k : Expansion → M B)
      (hk : (s : Expansion) → All IsNew s.new_pvs → Emits P (k s)) where
    created-then :
        (n : Text) (s : Expansion) (o : Outcome (Unit {0}))
        → IsNew n
        → All IsNew s.new_pvs
        → Emits P (pv_created vg n s o >>= k)
    unfolding pv_created
    created-then n s (value u) h a =
        hk (record s { new_pvs = s.new_pvs ++ n ∷ []; last_error = none })
          (All-append IsNew s.new_pvs (n ∷ []) a (h, tt))
    created-then n s (error x) h a =
        Emits-assoc (change_class vg _ s.suc)
          (λ suc. pure (record s { suc = suc; last_error = some x })) k
          (Emits-bind (change_class vg _ s.suc) _ (change_class-Emits vg _ s.suc)
            (λ suc. hk (record s { suc = suc; last_error = some x }) a))

    tested-then :
        (b : Bool) (d : Disk) (s : Expansion)
        → has_key d.name pvs ≡ b
        → All IsNew s.new_pvs
        → Emits P (
            (if b
              then pure s
              else (attempt (create_physical_volume d.name) >>= λ r. pv_created vg d.name s r))
            >>= k)
    tested-then true d s h a = hk s a
    tested-then false d s h a =
        Emits-assoc (attempt (create_physical_volume d.name)) (λ r. pv_created vg d.name s r) k
          (Emits-bind (attempt (create_physical_volume d.name))
            (λ r. pv_created vg d.name s r >>= k)
            (Emits-attempt _ (create_physical_volume-Emits d.name (inl (d.name, h, refl))))
            (λ r. created-then d.name s r h a))

    disk-then :
        (o : Option Disk) (s : Expansion)
        → All IsNew s.new_pvs
        → Emits P (expand_disk vg pvs s o >>= k)
    unfolding expand_disk
    disk-then none s a = hk s a
    disk-then (some d) s a = tested-then (has_key d.name pvs) d s refl a

  disks-then :
      {B : Type 0} (k : Expansion → M B)
      → ((s : Expansion) → All IsNew s.new_pvs → Emits P (k s))
      → (ds : List Disk) (s : Expansion) → All IsNew s.new_pvs
      → Emits P (expand_disks loop_map vg pvs ds s >>= k)
  unfolding expand_disks
  disks-then k hk [] s a = hk s a
  disks-then k hk (d ∷ ds) s a =
      Emits-assoc (expand_disk vg pvs s (resolve loop_map d))
        (λ s'. expand_disks loop_map vg pvs ds s') k
        (disk-then (λ s'. expand_disks loop_map vg pvs ds s' >>= k) (disks-then k hk ds)
          (resolve loop_map d) s a)

listed-Emits :
    (loop_map : Map LoopState) (class : DeviceClass) (suc : Map ClassState) (pvs : Map Text)
    → Emits (Extends class.vg_name pvs) (expand_listed loop_map class suc (value pvs))
unfolding expand_listed
listed-Emits loop_map class suc pvs =
    disks-then loop_map class.vg_name pvs (λ s. extend class.vg_name s s.new_pvs)
      (λ s a. extend-Emits loop_map class.vg_name pvs s s.new_pvs a) class.device _ tt

-- Where the volumes of a group can be listed, the check for an expansion then runs `pvcreate` on
-- devices that are not among them, and `vgextend` of this group by such devices, and nothing else.
pub check_vg_if_expand-Extends :
    (loop_map : Map LoopState) (class : DeviceClass) (suc : Map ClassState) (pvs : Map Text)
    (e : Env) (t : Trace)
    → (get_physical_volume class.vg_name e t).0 ≡ ok pvs
    → (acts : Trace) × ((check_vg_if_expand loop_map class suc e t).1
        ≡ (get_physical_volume class.vg_name e t).1 ++ acts)
      × All (Extends class.vg_name pvs) acts
unfolding check_vg_if_expand
check_vg_if_expand-Extends loop_map class suc pvs e t h =
    rw (attempt-eq (get_physical_volume class.vg_name) e t, h)
      ((listed-Emits loop_map class suc pvs).at e (get_physical_volume class.vg_name e t).1)
