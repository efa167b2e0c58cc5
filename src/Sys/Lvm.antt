-- ===== src/Sys/Lvm.antt =====
-- pkg/util/sys/lvm.go: queries and changes of volume groups, run through `nsenter` on the host.
pub mod Quiet
pub mod Remove
pub mod Change
pub mod Makes
mod Tests
use topolvm_operator.Base.{
  ℕ, Bool, true, false, not, ◌||◌, Option, none, some, List, [], ◌∷◌, ◌++◌, map, any, if◌then◌else◌,
}
use topolvm_operator.Base.Text.{Text, codes, same}
use topolvm_operator.Base.Maps.{Map, lookup, insert, get_or}
use topolvm_operator.Go.Numbers.{parse_uint}
use topolvm_operator.Api.{Disk}
use topolvm_operator.Env.{
  M, pure, fail, crash, Error, new, Action, ◌>>=◌, ◌>>◌, wrap, range, execute_command,
  execute_command_with_output,
}
use topolvm_operator.Sys.Parse.{parse_lines}

unfoldable pub nsenter : List Text → List Text
nsenter c =
    codes "nsenter"
    ∷ codes "-u"
    ∷ codes "-i"
    ∷ codes "-n"
    ∷ codes "-m"
    ∷ codes "-p"
    ∷ codes "-t"
    ∷ codes "1"
    ∷ c

unfoldable pub wrap_exec_command_with_output : List Text → M Text
wrap_exec_command_with_output c = execute_command_with_output (nsenter c)

unfoldable pub wrap_exec_command : List Text → M (Unit {0})
wrap_exec_command c = execute_command (nsenter c)

-- The command line of a report, and that of a change.
unfoldable pub report : Text → Text → List Text → List Text
report cmd fields args =
    codes "lvm"
    ∷ cmd
    ∷ codes "-o"
    ∷ fields
    ∷ codes "--noheadings"
    ∷ codes "--separator= "
    ∷ codes "--units=b"
    ∷ codes "--nosuffix"
    ∷ codes "--unbuffered"
    ∷ codes "--nameprefixes"
    ∷ args

unfoldable pub lvm : Text → List Text → List Text
lvm cmd args = codes "lvm" ∷ cmd ∷ args

or_crash : Option (List (Map Text)) → M (List (Map Text))
or_crash none = crash
or_crash (some infos) = pure infos

unfoldable pub parse_output : Text → Text → List Text → M (List (Map Text))
unfolding or_crash
parse_output cmd fields args = do
  out ← wrap_exec_command_with_output (report cmd fields args)
  or_crash (parse_lines out)

-- The loops over the lines of a report: a set of names, and a test.
unfoldable pub collect : Text → List (Map Text) → Map Text → Map Text
collect field [] m = m
collect field (info ∷ infos) m =
    let name = get_or [] field info in collect field infos (insert name name m)

pub any_named : Text → List (Map Text) → Bool
any_named field infos = any (λ info. not (same (get_or [] field info) [])) infos

pub get_volume_groups : M (Map Text)
unfolding collect
get_volume_groups = do
  infos ←
      wrap (codes "parse out failed cmd:vgs vg_name")
        (parse_output (codes "vgs") (codes "vg_name") [])
  pure (collect (codes "vg_name") infos [])

unfoldable pub get_physical_volume : Text → M (Map Text)
unfolding collect
get_physical_volume vg = do
  infos ←
      wrap (codes "parse out failed cmd:vgs pv_name " ++ vg)
        (parse_output (codes "vgs") (codes "pv_name") (vg ∷ []))
  pure (collect (codes "pv_name") infos [])

pub check_pv_has_logical_volume : Text → M Bool
unfolding any_named
check_pv_has_logical_volume pv = do
  infos ←
      wrap (codes "parse out failed cmd:pvs +lv_name " ++ pv)
        (parse_output (codes "pvs") (codes "+lv_name") (pv ∷ codes "--segments" ∷ []))
  pure (any_named (codes "lv_name") infos)

pub check_vg_has_logical_volume : Text → M Bool
unfolding any_named
check_vg_has_logical_volume vg = do
  infos ←
      wrap (codes "parse out failed cmd:vgs lv_name " ++ vg)
        (parse_output (codes "vgs") (codes "lv_name") (vg ∷ []))
  pure (any_named (codes "lv_name") infos)

-- One command for each name, until one fails.
pub each : (Text → List Text) → List Text → M (Unit {0})
each command [] = pure tt
each command (x ∷ xs) = do wrap_exec_command (command x); each command xs

abbrev pub vgremove : Text → List Text
vgremove vg = lvm (codes "vgremove") (vg ∷ [])

abbrev pub pvremove : Text → List Text
pvremove pv = lvm (codes "pvremove") (pv ∷ [])

abbrev pub pvcreate : Text → List Text
pvcreate pv = lvm (codes "pvcreate") (pv ∷ [])

abbrev pub vg_in_use : Text → Error
vg_in_use vg = new (codes "vg " ++ vg ++ codes " has some lv can not remove")

abbrev pub pv_in_use : Text → Error
pv_in_use pv = new (codes "pv " ++ pv ++ codes " has some lv can not remove")

pub remove_volume_group : Text → M (Unit {0})
remove_volume_group vg = do
  has ← check_vg_has_logical_volume vg
  if has then fail (vg_in_use vg) else do
    pvs ← get_physical_volume vg
    wrap_exec_command (vgremove vg)
    names ← range pvs
    each pvremove names

-- The first loop of `ShrinkVolumeGroup`: no volume may hold a logical volume.
pub check_free : List Text → M (Unit {0})
check_free [] = pure tt
check_free (pv ∷ pvs) = do
  has ← check_pv_has_logical_volume pv
  if has then fail (pv_in_use pv) else check_free pvs

pub shrink_volume_group : Text → List Text → M (Unit {0})
shrink_volume_group vg pvs = do
  check_free pvs
  wrap_exec_command (lvm (codes "vgreduce") (vg ∷ pvs))
  wrap_exec_command (lvm (codes "pvremove") pvs)

pub expand_volume_group : Text → List Text → M (Unit {0})
expand_volume_group vg pvs = wrap_exec_command (lvm (codes "vgextend") (vg ∷ pvs))

pub create_physical_volume : Text → M (Unit {0})
create_physical_volume name = wrap_exec_command (pvcreate name)

or_invalid : Option ℕ → M ℕ
or_invalid none = fail (new (codes "invalid syntax or value out of range"))
or_invalid (some n) = pure n

only_line : Text → List (Map Text) → M ℕ
unfolding or_invalid
only_line vg (info ∷ []) = or_invalid (parse_uint (get_or [] (codes "vg_size") info))
only_line vg _ = fail (new (codes "volume group not found: " ++ vg))

pub get_volume_group_size : Text → M ℕ
unfolding only_line
get_volume_group_size vg = do
  infos ← parse_output (codes "vgs") (codes "vg_size") (vg ∷ [])
  only_line vg infos

abbrev pub names_of : List Disk → List Text
names_of disks = map (λ (d : Disk). d.name) disks

pub create_volume_group : List Disk → Text → M (Unit {0})
create_volume_group disks vg = do
  each pvcreate (names_of disks)
  wrap_exec_command (lvm (codes "vgcreate") (vg ∷ names_of disks))
