-- ===== src/Util/Select.antt =====
-- pkg/operator/k8sutil: `GetMatchingContainer` of pod.go, `GetValue` and `GetOperatorSetting` of
-- configmap.go, and the owner references of resources.go.
use topolvm_operator.Base.{
  Bool, false, ◌&&◌, Option, none, some, List, [], ◌∷◌, ◌++◌, if◌then◌else◌,
}
use topolvm_operator.Base.Text.{Text, codes, same}
use topolvm_operator.Base.Maps.{Map, lookup}
use topolvm_operator.Kube.{Owner, Container}
use topolvm_operator.Env.{
  M, pure, asks, ◌>>=◌, value, error, attempt, Error, new, message, api_get_config_map,
}
use topolvm_operator.Client.{is_not_found}

unfoldable pub first_named : Text → List Container → Option Container
first_named name [] = none
first_named name (c ∷ cs) = if same c.name name then some c else first_named name cs

-- `GetMatchingContainer`
unfoldable pub get_matching_container : List Container → Text → Option Container
get_matching_container (c ∷ []) name = some c
get_matching_container cs name = first_named name cs

-- `os.LookupEnv`
abbrev look_up_env : Text → M (Option Text)
look_up_env name = asks (λ e t. (e.kube t).variable name)

or_variable : Text → Text → Option Text → M Text
or_variable name def (some v) = pure v
or_variable name def none = do v ← look_up_env name; elim v [ some v ↦ pure v | none ↦ pure def ]

-- `GetValue`
pub get_value : Map Text → Text → Text → M Text
unfolding or_variable
get_value data_map name def = or_variable name def (lookup name data_map)

-- `GetOperatorSetting`; beside its error it returns the default, which a caller may use.
pub get_operator_setting : Text → Text → Text → M (Text × Option Error)
unfolding or_variable
get_operator_setting config_map name def = do
  r ← attempt (api_get_config_map config_map)
  elim r [
    | value cm ↦ (do v ← or_variable name def (lookup name cm.data_map); pure (v, none))
    | error x ↦
        if is_not_found x
        then (do v ← or_variable name def none; pure (v, none))
        else pure (
          def,
          some
              (new (codes "error reading ConfigMap \"" ++ config_map ++ codes "\". " ++ message x)),
        )
  ]

-- `SetOwnerRefsWithoutBlockOwner`: the flags that it drops are not in an `Owner`.
unfoldable pub set_owner_refs : List Owner → Option (List Owner) → List Owner
set_owner_refs old none = old
set_owner_refs old (some refs) = refs

-- `referSameObject`; `parse` is `schema.ParseGroupVersion`, with the group.
unfoldable pub refer_same_object : (Text → Option Text) → Owner → Owner → Bool
refer_same_object parse a b = elim (parse a.api_version) [
  | none ↦ false
  | some ga ↦ elim (parse b.api_version) [
    | none ↦ false
    | some gb ↦ same ga gb && same a.kind b.kind && same a.name b.name
  ]
]
