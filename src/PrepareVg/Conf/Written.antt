-- ===== src/PrepareVg/Conf/Written.antt =====
-- `updateLvmdConf`: the device classes of lvmd.
use topolvm_operator.Base.{
  ◌≡◌, ◌∙◌, sym, refl, ap, ap₂, Bool, List, [], ◌∷◌, ◌++◌, map, select, arith, if◌then◌else◌, Has,
  any-Has, Has-any, Has-select, select-Has, Has-append, append-Has, Has-map, map-Has, subst, ◌⊎◌,
  inl, inr, ◌↔◌, true, some,
}
use topolvm_operator.Base.Text.{Text, same, same_iff}
use topolvm_operator.Base.Maps.{Map, lookup, lookup-insert_self}
use topolvm_operator.Api
use topolvm_operator.Api.{ClassState}
use topolvm_operator.Cluster
use topolvm_operator.Cluster.{LmvdConf, lvmd_config_map_key}
use topolvm_operator.Env.{Env, Trace, ok, ConfigMap, asks_result, pure, ◌>>=◌}
use topolvm_operator.Env.Laws.{bind-ok, ok-injective}
use topolvm_operator.PrepareVg.Conf.{
  put_data, convert_all, conf_found, update_lvmd_conf, set_default, set_defaults, succeeded,
  keep_succeeded, updated_classes,
}

-- The default flag that the specification gives a name, the last class of the name first; `b` where
-- it has no such class.
abbrev pub specified_default : List Api.DeviceClass → Text → Bool → Bool
specified_default [] name b = b
specified_default (dev ∷ devs) name b =
    specified_default devs name (if same name dev.class_name then dev.default else b)

abbrev pub renewed : List Api.DeviceClass → Cluster.DeviceClass → Cluster.DeviceClass
renewed devs c = record c { default = specified_default devs c.name c.default }

set_default-renewed :
    (dev : Api.DeviceClass) (c : Cluster.DeviceClass)
    → set_default dev c
      ≡ record c { default = if same c.name dev.class_name then dev.default else c.default }
unfolding set_default
set_default-renewed dev c = ground arith

map-same : (cs : List Cluster.DeviceClass) → map (renewed []) cs ≡ cs
map-same [] = refl
map-same (c ∷ cs) = ap (λ ds. c ∷ ds) (map-same cs)

map-renewed :
    (dev : Api.DeviceClass) (devs : List Api.DeviceClass) (cs : List Cluster.DeviceClass)
    → map (renewed devs) (map (set_default dev) cs) ≡ map (renewed (dev ∷ devs)) cs
map-renewed dev devs [] = refl
map-renewed dev devs (c ∷ cs) =
    ap₂ (λ d ds. d ∷ ds) (ap (renewed devs) (set_default-renewed dev c)) (map-renewed dev devs cs)

set_defaults-renewed :
    (devs : List Api.DeviceClass) (cs : List Cluster.DeviceClass)
    → set_defaults devs cs ≡ map (renewed devs) cs
unfolding set_defaults
set_defaults-renewed [] cs = sym (map-same cs)
set_defaults-renewed (dev ∷ devs) cs = set_defaults-renewed devs _ ∙ map-renewed dev devs cs

-- The classes in their order: the old ones with the default flag that the specification gives their
-- names, and the new ones, without those of which no class succeeded.
updated_classes-exact :
    (specified : List Api.DeviceClass) (suc : Map ClassState) (added old : List Cluster.DeviceClass)
    → updated_classes specified suc added old
      ≡ select
          (λ (c : Cluster.DeviceClass). succeeded suc c.name)
          (map (renewed specified) old ++ added)
unfolding updated_classes keep_succeeded
updated_classes-exact specified suc added old = rw (set_defaults-renewed specified old)

-- One of the states that succeeded is that of a class of this name.
abbrev pub IsSucceeded : Map ClassState → Text → Type 0
IsSucceeded suc name = (kv : Text × ClassState) × Has kv suc × (kv.1.name ≡ name)

-- One of the old classes with the default flag that the specification gives its name.
abbrev pub IsRenewed :
    List Api.DeviceClass → List Cluster.DeviceClass → Cluster.DeviceClass → Type 0
IsRenewed specified old c = (o : Cluster.DeviceClass) × Has o old × (c ≡ renewed specified o)

-- The classes are just those new or old ones that succeeded.
abbrev pub AreUpdated :
    List Api.DeviceClass
    → Map ClassState
    → List Cluster.DeviceClass
    → List Cluster.DeviceClass
    → List Cluster.DeviceClass
    → Type 0
AreUpdated specified suc added old classes =
    (c : Cluster.DeviceClass)
    → Has c classes ↔ (IsSucceeded suc c.name × (IsRenewed specified old c ⊎ Has c added))

succeeded-IsSucceeded :
    (suc : Map ClassState) (name : Text) → succeeded suc name ≡ true → IsSucceeded suc name
unfolding succeeded
succeeded-IsSucceeded suc name h =
    let (kv, has, q) = any-Has (λ (kv : Text × ClassState). same name kv.1.name) suc h in
    (kv, has, sym ((same_iff name kv.1.name).0 q))

IsSucceeded-succeeded :
    (suc : Map ClassState) (name : Text) → IsSucceeded suc name → succeeded suc name ≡ true
unfolding succeeded
IsSucceeded-succeeded suc name (kv, has, q) =
    Has-any (λ (kv : Text × ClassState). same name kv.1.name) suc kv has
      ((same_iff name kv.1.name).1 (sym q))

updated_classes-AreUpdated :
    (specified : List Api.DeviceClass) (suc : Map ClassState) (added old : List Cluster.DeviceClass)
    → AreUpdated specified suc added old (updated_classes specified suc added old)
updated_classes-AreUpdated specified suc added old c =
    let test = λ (c : Cluster.DeviceClass). succeeded suc c.name in
    let all = map (renewed specified) old ++ added in
    let exact = updated_classes-exact specified suc added old in
    (
      (λ h.
          let (has, q) = Has-select test all c (subst (λ cs. Has c cs) exact h) in
          (
            succeeded-IsSucceeded suc c.name q,
            elim (Has-append (map (renewed specified) old) added c has) [
              | inl l ↦ inl (Has-map (renewed specified) old c l)
              | inr r ↦ inr r
            ],
          )),
      (λ (s, from).
          let q = IsSucceeded-succeeded suc c.name s in
          let has : Has c (map (renewed specified) old) ⊎ Has c added = elim from [
            | inl (o, l, p) ↦ inl (
                subst (λ d. Has d (map (renewed specified) old)) (sym p)
                  (map-Has (renewed specified) old o l))
            | inr r ↦ inr r
          ] in
          subst (λ cs. Has c cs) (sym exact)
            (select-Has test all c (append-Has (map (renewed specified) old) added c has) q)),
    )

-- The ConfigMap holds the text of a configuration with the classes that the old one, the new groups
-- and the states make.
abbrev pub IsUpdated :
    List Api.DeviceClass
    → List Api.DeviceClass
    → Map ClassState
    → Text
    → Env
    → Trace
    → ConfigMap
    → Type 0
IsUpdated specified new_vgs suc old_text e t cm =
    (old conf : LmvdConf) × (added : List Cluster.DeviceClass) × (text : Text) × (e.unmarshal_conf
        old_text
      ≡ ok old)
    × ((convert_all new_vgs e t).0 ≡ ok added)
    × AreUpdated specified suc added old.device_classes conf.device_classes
    × (conf.socket_name ≡ old.socket_name)
    × (e.marshal_conf conf ≡ ok text)
    × (lookup lvmd_config_map_key cm.data_map ≡ some text)

-- Where a ConfigMap has a configuration of lvmd and its update ends well, it then holds the text of
-- a configuration with the same socket and with just these classes: the old ones, each with the
-- default flag that the last class of its name in the specification gives it, and the converted new
-- ones, as far as one of the states that succeeded has their name.
pub update_lvmd_conf-IsUpdated :
    (specified new_vgs : List Api.DeviceClass) (cm : ConfigMap) (suc : Map ClassState)
    (old_text : Text) (e : Env) (t : Trace) (cm' : ConfigMap)
    → lookup lvmd_config_map_key cm.data_map ≡ some old_text
    → (update_lvmd_conf specified cm new_vgs suc e t).0 ≡ ok cm'
    → IsUpdated specified new_vgs suc old_text e t cm'
unfolding update_lvmd_conf conf_found
update_lvmd_conf-IsUpdated specified new_vgs cm suc old_text e t cm' found h =
    let put = λ (text : Text). pure (put_data lvmd_config_map_key text cm) in
    let classes = λ (old : LmvdConf) (added : List Cluster.DeviceClass).
      updated_classes specified suc added old.device_classes in
    let write = λ (old : LmvdConf) (added : List Cluster.DeviceClass).
      asks_result (λ e. e.marshal_conf (record old { device_classes = classes old added }))
      >>= put in
    let convert = λ (old : LmvdConf). convert_all new_vgs >>= write old in
    let run : ((asks_result (λ e. e.unmarshal_conf old_text) >>= convert) e t).0 ≡ ok cm' =
      subst (λ o. (conf_found specified cm new_vgs suc o e t).0 ≡ ok cm') found h in
    let (old, p1, q1) = bind-ok (asks_result (λ e. e.unmarshal_conf old_text)) convert e t run in
    let h1 = ap (λ r. r.0) (sym q1) ∙ run in
    let (added, p2, q2) = bind-ok (convert_all new_vgs) (write old) e t h1 in
    let h2 = ap (λ r. r.0) (sym q2) ∙ h1 in
    let conf : LmvdConf = record old { device_classes = classes old added } in
    let u = (convert_all new_vgs e t).1 in
    let (text, p3, q3) = bind-ok (asks_result (λ e. e.marshal_conf conf)) put e u h2 in
    let r : put_data lvmd_config_map_key text cm ≡ cm' =
      ok-injective (ap (λ r. r.0) (sym q3) ∙ h2) in
    (
      old,
      conf,
      added,
      text,
      p1,
      p2,
      updated_classes-AreUpdated specified suc added old.device_classes,
      refl,
      p3,
      subst (λ (c : ConfigMap). lookup lvmd_config_map_key c.data_map ≡ some text) r
          (lookup-insert_self lvmd_config_map_key text cm.data_map),
    )
