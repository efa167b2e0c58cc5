-- ===== src/Sys/Lvm/Tests.antt =====
-- The changes of volume groups on concrete nodes.
use topolvm_operator.Base.{ap, ◌≡◌, ◌≢◌, refl, Bool, true, false, List, [], ◌∷◌, ◌++◌, map, All}
use topolvm_operator.Base.Text.{Text, codes, same}
use topolvm_operator.Base.Maps.{Map, insert}
use topolvm_operator.Go.Strings.{split, trim_space, trim, to_lower}
use topolvm_operator.Api.{Disk}
use topolvm_operator.Env.{
  Trace, ok, execute_command, execute_command_with_output, execute_command_with_status,
  run_command_with_output, range, assert_error_type,
}
use topolvm_operator.Env.World.{lvm_node, broken_node}
use topolvm_operator.Sys.Parse.{parse_lines}
use topolvm_operator.Sys.Lvm.{
  wrap_exec_command, wrap_exec_command_with_output, nsenter, report, lvm, parse_output,
  check_vg_has_logical_volume, check_pv_has_logical_volume, get_physical_volume,
  remove_volume_group, shrink_volume_group, create_volume_group, check_free, each, pvcreate,
  vgremove, pvremove, names_of,
}
use topolvm_operator.Sys.Lvm.Quiet.{Quiet}
use topolvm_operator.Sys.Lvm.Remove.{
  ran, visited, remove_volume_group-refuses, remove_volume_group-ok,
}
use topolvm_operator.Sys.Lvm.Change.{AllFree, shrink_volume_group-refuses, shrink_volume_group-ok}

abbrev vg1 : Text
vg1 = codes "vg1"

abbrev sdb : Text
sdb = codes "/dev/sdb"

abbrev one_disk : List Disk
one_disk = record { name = sdb; type = codes "disk"; auto = false; path = []; size = 0 } ∷ []

unreadable : (check_vg_has_logical_volume vg1 broken_node []).0 ≢ ok false
unfolding check_vg_has_logical_volume parse_output wrap_exec_command_with_output
    execute_command_with_output execute_command_with_status run_command_with_output
    assert_error_type trim_space
unreadable h = cc

removed : (remove_volume_group vg1 lvm_node []).0 ≡ ok tt
unfolding remove_volume_group check_vg_has_logical_volume get_physical_volume parse_output
    wrap_exec_command_with_output execute_command_with_output execute_command_with_status
    run_command_with_output wrap_exec_command execute_command each range parse_lines split
    trim_space trim to_lower insert same report nsenter assert_error_type
    topolvm_operator.Sys.Parse.parse_one_line topolvm_operator.Base.Maps.keys
removed = refl

not_free : ¬ AllFree (sdb ∷ []) broken_node []
unfolding check_pv_has_logical_volume parse_output wrap_exec_command_with_output
    execute_command_with_output execute_command_with_status run_command_with_output
    assert_error_type trim_space
not_free (h, rest) = cc

shrunk_vg : (shrink_volume_group vg1 (sdb ∷ []) lvm_node []).0 ≡ ok tt
unfolding shrink_volume_group check_free check_pv_has_logical_volume parse_output
    wrap_exec_command_with_output execute_command_with_output execute_command_with_status
    run_command_with_output wrap_exec_command execute_command parse_lines split trim_space trim
    to_lower insert same report nsenter assert_error_type
shrunk_vg = refl

made : (create_volume_group one_disk vg1 lvm_node []).0 ≡ ok tt
unfolding create_volume_group each wrap_exec_command execute_command
made = refl

not_made : (each pvcreate (names_of one_disk) broken_node []).0 ≢ ok tt
unfolding each wrap_exec_command execute_command
not_made h = cc

remove_volume_group-refuses_example :
    (acts : Trace) × ((remove_volume_group vg1 broken_node []).1 ≡ [] ++ acts)
    × All Quiet acts
    × ((remove_volume_group vg1 broken_node []).0 ≢ ok tt)
remove_volume_group-refuses_example = remove_volume_group-refuses vg1 broken_node [] unreadable

remove_volume_group-ok_example :
    (acts : Trace) × (m : Map Text) × All Quiet acts
    × ((check_vg_has_logical_volume vg1 lvm_node []).0 ≡ ok false)
    × ((get_physical_volume vg1 lvm_node (check_vg_has_logical_volume vg1 lvm_node []).1)
        ≡ (ok m, [] ++ acts))
    × ((remove_volume_group vg1 lvm_node []).1
        ≡ (([] ++ acts) ++ ran (vgremove vg1) ∷ [])
          ++ map
              (λ pv. ran (pvremove pv))
              (visited lvm_node (([] ++ acts) ++ ran (vgremove vg1) ∷ []) m))
remove_volume_group-ok_example = remove_volume_group-ok vg1 lvm_node [] removed

shrink_volume_group-refuses_example :
    (acts : Trace) × ((shrink_volume_group vg1 (sdb ∷ []) broken_node []).1 ≡ [] ++ acts)
    × All Quiet acts
    × ((shrink_volume_group vg1 (sdb ∷ []) broken_node []).0 ≢ ok tt)
shrink_volume_group-refuses_example =
    shrink_volume_group-refuses vg1 (sdb ∷ []) broken_node [] not_free

shrink_volume_group-ok_example :
    (acts : Trace) × All Quiet acts
    × AllFree (sdb ∷ []) lvm_node []
    × ((shrink_volume_group vg1 (sdb ∷ []) lvm_node []).1
        ≡ ([] ++ acts)
          ++ ran (lvm (codes "vgreduce") (vg1 ∷ sdb ∷ []))
            ∷ ran (lvm (codes "pvremove") (sdb ∷ []))
            ∷ [])
shrink_volume_group-ok_example = shrink_volume_group-ok vg1 (sdb ∷ []) lvm_node [] shrunk_vg
