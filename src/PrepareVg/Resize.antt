-- ===== src/PrepareVg/Resize.antt =====
-- `checkVgIfExpand`, `checkVgIfShrink` and `checkVgIfDelete`: the volume groups that are there are
-- brought to the disks of the specification. Each goes on from an error, so the maps come back
-- beside it.
pub mod Delete
pub mod Named
pub mod Shrink
pub mod Expand
pub mod Loops
mod Tests
use topolvm_operator.Base.{
  ℕ, ◌<◌, Bool, true, false, not, ◌&&◌, Option, none, some, List, [], ◌∷◌, ◌++◌, any, select,
  length, ltb, ◌==◌, map, if◌then◌else◌,
}
use topolvm_operator.Base.Text.{Text, codes, same}
use topolvm_operator.Base.Maps.{Map, lookup, insert, delete, has_key}
use topolvm_operator.Api.{Disk, DeviceClass, LoopState, DeviceState, ClassState, device_online}
use topolvm_operator.Env.{
  M, pure, crash, Error, message, ◌>>=◌, ◌>>◌, Outcome, value, error, attempt, range,
}
use topolvm_operator.Sys.Lvm.{
  get_physical_volume, create_physical_volume, expand_volume_group, shrink_volume_group,
  remove_volume_group,
}
use topolvm_operator.PrepareVg.{
  Classes, resolve, class_expand_waring, class_expand_error, class_shrink_error, class_delete_error,
  device_state_error,
}

-- `sucClass[vg]` is changed through its pointer; a missing key is a nil pointer.
changed : Text → (ClassState → ClassState) → Map ClassState → Option ClassState → M (Map ClassState)
changed vg f suc none = crash
changed vg f suc (some s) = pure (insert vg (f s) suc)

pub change_class : Text → (ClassState → ClassState) → Map ClassState → M (Map ClassState)
unfolding changed
change_class vg f suc = changed vg f suc (lookup vg suc)

abbrev pub set_message : Text → ClassState → ClassState
set_message text s = record s { message = text }

abbrev pub add_states : List DeviceState → ClassState → ClassState
add_states states s = record s { device_states = s.device_states ++ states }

unfoldable pub broken : Text → Error → DeviceState
broken name x = record { name = name; state = device_state_error; message = message x }

unfoldable pub online : Text → DeviceState
online name = record { name = name; state = device_online; message = [] }

-- What the loop over the disks carries: the class states, the new physical volumes, and `err`,
-- which holds the result of the last `CreatePhysicalVolume`.
pub record Expansion : Type 0 where
  pub suc : Map ClassState
  pub new_pvs : List Text
  pub last_error : Option Error

pv_created : Text → Text → Expansion → Outcome (Unit {0}) → M Expansion
unfolding broken
pv_created vg name s (value u) =
    pure (record s { new_pvs = s.new_pvs ++ name ∷ []; last_error = none })
pv_created vg name s (error x) = do
  suc ←
      change_class vg (λ c. add_states (broken name x ∷ []) (set_message class_expand_waring c))
        s.suc
  pure (record s { suc = suc; last_error = some x })

pub expand_disk : Text → Map Text → Expansion → Option Disk → M Expansion
unfolding pv_created
expand_disk vg pvs s none = pure s
expand_disk vg pvs s (some d) =
    if has_key d.name pvs
    then pure s
    else (do r ← attempt (create_physical_volume d.name); pv_created vg d.name s r)

pub expand_disks : Map LoopState → Text → Map Text → List Disk → Expansion → M Expansion
unfolding expand_disk
expand_disks loop_map vg pvs [] s = pure s
expand_disks loop_map vg pvs (d ∷ ds) s = do
  s' ← expand_disk vg pvs s (resolve loop_map d)
  expand_disks loop_map vg pvs ds s'

expanded : Text → Expansion → Outcome (Unit {0}) → M (Map ClassState × Option Error)
unfolding online
expanded vg s (error x) = do
  suc ← change_class vg (set_message class_expand_error) s.suc
  pure (suc, some x)
expanded vg s (value u) = do
  suc ← change_class vg (add_states (map online s.new_pvs)) s.suc
  pure (suc, s.last_error)

extend : Text → Expansion → List Text → M (Map ClassState × Option Error)
unfolding expanded
extend vg s [] = pure (s.suc, s.last_error)
extend vg s (n ∷ names) = do r ← attempt (expand_volume_group vg (n ∷ names)); expanded vg s r

expand_listed :
    Map LoopState
    → DeviceClass
    → Map ClassState
    → Outcome (Map Text)
    → M (Map ClassState × Option Error)
unfolding extend
expand_listed loop_map class suc (error x) = pure (suc, some x)
expand_listed loop_map class suc (value pvs) = do
  s ←
      expand_disks loop_map class.vg_name pvs class.device
        (record { suc = suc; new_pvs = []; last_error = none })
  extend class.vg_name s s.new_pvs

pub check_vg_if_expand :
    Map LoopState → DeviceClass → Map ClassState → M (Map ClassState × Option Error)
unfolding expand_listed
check_vg_if_expand loop_map class suc = do
  r ← attempt (get_physical_volume class.vg_name)
  expand_listed loop_map class suc r

-- The physical volumes that no disk of the class names.
unfoldable pub to_delete : DeviceClass → List Text → List Text
to_delete class pvs = select (λ pv. not (any (λ (d : Disk). same pv d.name) class.device)) pvs

-- The loops that cut the states of the removed volumes out of the slice.
unfoldable pub drop_states : List Text → List DeviceState → List DeviceState
drop_states names states = select (λ (d : DeviceState). not (any (λ n. same d.name n) names)) states

removed_all : Text → Map ClassState → Outcome (Unit {0}) → M (Map ClassState × Option Error)
removed_all vg suc (value u) = pure (delete vg suc, none)
removed_all vg suc (error x) = do
  suc' ← change_class vg (set_message class_delete_error) suc
  pure (suc', some x)

shrunk : Text → List Text → Map ClassState → Outcome (Unit {0}) → M (Map ClassState × Option Error)
unfolding drop_states
shrunk vg names suc (error x) = do
  suc' ← change_class vg (set_message class_shrink_error) suc
  pure (suc', some x)
shrunk vg names suc (value u) = do
  suc' ← change_class vg (λ c. record c { device_states = drop_states names c.device_states }) suc
  pure (suc', none)

shrink_listed :
    DeviceClass → Map ClassState → List Text → List Text → M (Map ClassState × Option Error)
unfolding removed_all shrunk
shrink_listed class suc pvs names =
    if length names == length pvs && ltb 0 (length pvs)
    then (do r ← attempt (remove_volume_group class.vg_name); removed_all class.vg_name suc r)
    else if ltb 0 (length names)
    then (do
      r ← attempt (shrink_volume_group class.vg_name names)
      shrunk class.vg_name names suc r)
    else pure (suc, none)

shrink_found : DeviceClass → Map ClassState → Outcome (Map Text) → M (Map ClassState × Option Error)
unfolding shrink_listed
shrink_found class suc (error x) = pure (suc, some x)
shrink_found class suc (value m) = do
  pvs ← range m
  shrink_listed class suc pvs (to_delete class pvs)

pub check_vg_if_shrink : DeviceClass → Map ClassState → M (Map ClassState × Option Error)
unfolding shrink_found
check_vg_if_shrink class suc = do
  r ← attempt (get_physical_volume class.vg_name)
  shrink_found class suc r

unfoldable pub specified : List DeviceClass → Text → Bool
specified classes vg = any (λ (c : DeviceClass). same c.vg_name vg) classes

-- The first loop of `checkVgIfDelete`: the state goes also where the removal failed.
pub delete_groups : List DeviceClass → List Text → Map ClassState → M (Map ClassState)
delete_groups classes [] suc = pure suc
delete_groups classes (vg ∷ vgs) suc =
    if specified classes vg
    then delete_groups classes vgs suc
    else (do attempt (remove_volume_group vg); delete_groups classes vgs (delete vg suc))

unfoldable pub forget_failed : List DeviceClass → List Text → Map ClassState → Map ClassState
forget_failed classes [] m = m
forget_failed classes (vg ∷ vgs) m =
    forget_failed classes vgs (if specified classes vg then m else delete vg m)

pub check_vg_if_delete : List DeviceClass → Classes → M Classes
check_vg_if_delete classes cs = do
  sucs ← range cs.suc
  suc ← delete_groups classes sucs cs.suc
  fails ← range cs.failed
  pure (record { suc = suc; failed = forget_failed classes fails cs.failed })
