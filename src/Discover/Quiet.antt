-- ===== src/Discover/Quiet.antt =====
-- What `checkDeviceClass` puts on the trace.
use topolvm_operator.Base.{◌≡◌, refl, List, [], ◌∷◌, ◌++◌, All, ◌⊎◌, inl, inr}
use topolvm_operator.Base.Text.{Text, same}
use topolvm_operator.Base.Maps.{get_or}
use topolvm_operator.Api.{ClassState, NodeStorageState}
use topolvm_operator.Cluster.{vg_status_config_map_key}
use topolvm_operator.Env.{
  Env, Trace, Action, patch_config_map, ConfigMap, pure, asks_result, ◌>>=◌, Outcome, value, error,
  attempt, api_get_config_map,
}
use topolvm_operator.Env.Emits.{
  Emits, Emits-bind, Emits-if, Emits-pure, Emits-asks_result, Emits-attempt, Emits-get_config_map,
  Emits-write,
}
use topolvm_operator.ConfigMaps.{patch}
use topolvm_operator.Sys.Lvm.{get_physical_volume}
use topolvm_operator.Sys.Lvm.Quiet.{Quiet, get_physical_volume-Quiet}
use topolvm_operator.Discover.{
  mark_class, mark_classes, write_state, check_status, check_config_map, check_device_class,
}

-- A query, or a patch of a ConfigMap.
abbrev Patches : Action → Type 0
Patches a = Quiet a ⊎ ((name : Text) × (cm : ConfigMap) × (a ≡ patch_config_map name cm))

queries : (acts : Trace) → All Quiet acts → All Patches acts
queries [] h = tt
queries (a ∷ acts) (q, h) = (inl q, queries acts h)

volumes-Emits : (vg : Text) → Emits Patches (get_physical_volume vg)
volumes-Emits vg = record {
  at = λ e t. let (acts, p, q) = (get_physical_volume-Quiet vg).at e t in (acts, p, queries acts q);
}

mark_classes-Emits : (cs : List ClassState) → Emits Patches (mark_classes cs)
unfolding mark_classes
mark_classes-Emits [] = Emits-pure []
mark_classes-Emits (c ∷ cs) =
    Emits-bind (get_physical_volume c.vg_name)
      (λ pvs. mark_classes cs >>= λ rest. pure (mark_class pvs c ∷ rest)) (volumes-Emits c.vg_name)
      (λ pvs.
        Emits-bind (mark_classes cs) (λ rest. pure (mark_class pvs c ∷ rest))
          (mark_classes-Emits cs) (λ rest. Emits-pure (mark_class pvs c ∷ rest)))

write_state-Emits :
    (cm : ConfigMap) (state : NodeStorageState) → Emits Patches (write_state cm state)
unfolding write_state patch
write_state-Emits cm state =
    Emits-bind (asks_result (λ e. e.marshal_state state)) _ (Emits-asks_result _)
      (λ text. Emits-write _ (inr (_, _, refl)))

check_status-Emits : (cm : ConfigMap) (status : Text) → Emits Patches (check_status cm status)
unfolding check_status
check_status-Emits cm status = Emits-if (same status []) (pure tt) _ (Emits-pure tt) (
    Emits-bind (asks_result (λ e. e.unmarshal_state status)) _ (Emits-asks_result _) (λ state.
      Emits-bind (mark_classes state.success_classes) _ (mark_classes-Emits state.success_classes)
        (λ classes. write_state-Emits cm (record state { success_classes = classes }))))

check_config_map-Emits : (o : Outcome ConfigMap) → Emits Patches (check_config_map o)
unfolding check_config_map
check_config_map-Emits (value cm) =
    check_status-Emits cm (get_or [] vg_status_config_map_key cm.data_map)
check_config_map-Emits (error x) = Emits-pure tt

-- Whatever the node and the API answer, a check of the devices only queries them and patches a
-- ConfigMap: no volume group and no volume is changed.
check_device_class-Patches :
    (name : Text) (e : Env) (t : Trace)
    → (acts : Trace) × ((check_device_class name e t).1 ≡ t ++ acts) × All Patches acts
unfolding check_device_class
check_device_class-Patches name e t =
    (Emits-bind (attempt (api_get_config_map name)) (λ r. check_config_map r)
        (Emits-attempt _ (Emits-get_config_map name (inl tt))) check_config_map-Emits).at
      e t
