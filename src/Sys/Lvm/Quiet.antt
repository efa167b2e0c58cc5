-- ===== src/Sys/Lvm/Quiet.antt =====
-- What the reports of `lvm` put on the trace.
use topolvm_operator.Base.{Option, none, some, List, [], ◌∷◌, if◌then◌else◌}
use topolvm_operator.Base.Text.{Text}
use topolvm_operator.Base.Maps.{Map}
use topolvm_operator.Env.{Action, output, get_config_map, fail}
use topolvm_operator.Env.Emits.{Emits, Emits-bind, Emits-if, Emits-fail, emits_rules}
use topolvm_operator.Sys.Lvm.{
  wrap_exec_command_with_output, parse_output, or_crash, get_volume_groups, get_physical_volume,
  check_pv_has_logical_volume, check_vg_has_logical_volume, check_free, pv_in_use,
}

-- The action reads and changes nothing.
abbrev pub Quiet : Action → Type 0
Quiet (output c) = Unit
Quiet (get_config_map n) = Unit
Quiet _ = ⊥

or_crash-Quiet : (o : Option (List (Map Text))) → Emits Quiet (or_crash o)
unfolding or_crash
or_crash-Quiet none = search emits_rules
or_crash-Quiet (some infos) = search emits_rules

query-Quiet : (c : List Text) → Emits Quiet (wrap_exec_command_with_output c)
unfolding wrap_exec_command_with_output
query-Quiet c = search emits_rules

pub parse_output-Quiet :
    (cmd fields : Text) (args : List Text) → Emits Quiet (parse_output cmd fields args)
unfolding parse_output
parse_output-Quiet cmd fields args = search (emits_rules, or_crash-Quiet, query-Quiet)

ruleset report_rules = (emits_rules, parse_output-Quiet)

pub get_volume_groups-Quiet : Emits Quiet get_volume_groups
unfolding get_volume_groups
get_volume_groups-Quiet = search report_rules

pub get_physical_volume-Quiet : (vg : Text) → Emits Quiet (get_physical_volume vg)
unfolding get_physical_volume
get_physical_volume-Quiet vg = search report_rules

pub check_pv-Quiet : (pv : Text) → Emits Quiet (check_pv_has_logical_volume pv)
unfolding check_pv_has_logical_volume
check_pv-Quiet pv = search report_rules

pub check_vg-Quiet : (vg : Text) → Emits Quiet (check_vg_has_logical_volume vg)
unfolding check_vg_has_logical_volume
check_vg-Quiet vg = search report_rules

pub check_free-Quiet : (pvs : List Text) → Emits Quiet (check_free pvs)
unfolding check_free
check_free-Quiet [] = search emits_rules
check_free-Quiet (pv ∷ pvs) =
    Emits-bind (check_pv_has_logical_volume pv)
      (λ has. if has then fail (pv_in_use pv) else check_free pvs) (check_pv-Quiet pv)
      λ has.
        Emits-if has (fail (pv_in_use pv)) (check_free pvs) (Emits-fail (pv_in_use pv))
          (check_free-Quiet pvs)
