-- ===== src/PrepareVg/Conf/Status.antt =====
-- `updateVgStatus`: what the status lists.
use topolvm_operator.Base.{
  ◌≡◌, ◌∙◌, sym, refl, ap, subst, true, Option, none, some, List, [], ◌∷◌, Has, ◌↔◌, inl, inr,
}
use topolvm_operator.Base.Text.{Text}
use topolvm_operator.Base.Maps.{Map, lookup, keys, has_key, keys-Has, lookup-insert_self}
use topolvm_operator.Api.{ClassState, LoopState, NodeStorageState}
use topolvm_operator.Cluster.{vg_status_config_map_key}
use topolvm_operator.Env.{Env, Trace, ok, ConfigMap, range, asks_result, pure}
use topolvm_operator.Env.Laws.{bind-ok, ok-injective}
use topolvm_operator.PrepareVg.Resize.Delete.{VisitsAll}
use topolvm_operator.PrepareVg.{Classes}
use topolvm_operator.PrepareVg.Conf.{put_data, cons_found, values_at, update_vg_status}

module _ {V : Type 0} (m : Map V) where
  cons_found-first : (v : V) (o : Option V) (vs : List V) → o ≡ some v → Has v (cons_found o vs)
  cons_found-first v none vs p = absurd (cc)
  cons_found-first v (some w) vs p = inl (let q : w ≡ v = cc in q)

  cons_found-rest : (v : V) (o : Option V) (vs : List V) → Has v vs → Has v (cons_found o vs)
  cons_found-rest v none vs h = h
  cons_found-rest v (some w) vs h = inr h

  values_at-Has :
      (ks : List Text) (k : Text) (v : V) → Has k ks → lookup k m ≡ some v → Has v (values_at m ks)
  unfolding values_at
  values_at-Has [] k v h p = absurd h
  values_at-Has (j ∷ ks) k v (inl e) p =
      cons_found-first v (lookup j m) (values_at m ks) (ap (λ n. lookup n m) e ∙ p)
  values_at-Has (j ∷ ks) k v (inr h) p =
      cons_found-rest v (lookup j m) (values_at m ks) (values_at-Has ks k v h p)

  found_in :
      (j : Text) (o : Option V) (vs : List V) (v : V)
      → lookup j m ≡ o
      → (Has v vs → (k : Text) × (lookup k m ≡ some v))
      → Has v (cons_found o vs)
      → (k : Text) × (lookup k m ≡ some v)
  found_in j none vs v p f h = f h
  found_in j (some w) vs v p f (inl e) = (j, p ∙ ap some e)
  found_in j (some w) vs v p f (inr h) = f h

  Has-values_at :
      (ks : List Text) (v : V) → Has v (values_at m ks) → (k : Text) × (lookup k m ≡ some v)
  unfolding values_at
  Has-values_at [] v h = absurd h
  Has-values_at (j ∷ ks) v h =
      found_in j (lookup j m) (values_at m ks) v refl (Has-values_at ks v) h

-- The list holds the values of the map, and no others.
abbrev pub IsListing : Map ClassState → List ClassState → Type 0
IsListing m vs = (v : ClassState) → Has v vs ↔ ((k : Text) × (lookup k m ≡ some v))

has_found :
    (k : Text) (v : ClassState) (m : Map ClassState) → lookup k m ≡ some v → has_key k m ≡ true
has_found k v m p = rw p

listing :
    (m : Map ClassState) (e : Env) (t : Trace)
    → VisitsAll e
    → IsListing m (values_at m (e.order t (keys m)))
listing m e t visits v = (
  Has-values_at m (e.order t (keys m)) v,
  λ (k, p).
      values_at-Has m (e.order t (keys m)) k v
        (visits t (keys m) k (keys-Has k m (has_found k v m p))) p,
)

abbrev pub told : NodeStorageState → Classes → List LoopState → Env → Trace → NodeStorageState
told state cs loops e t = record state {
  fail_classes = values_at cs.failed (e.order t (keys cs.failed));
  success_classes = values_at cs.suc (e.order t (keys cs.suc));
  loops = loops;
}

written :
    (cm : ConfigMap) (state : NodeStorageState) (cs : Classes) (loops : List LoopState) (e : Env)
    (t : Trace) (cm' : ConfigMap) (state' : NodeStorageState)
    → (update_vg_status cm state cs loops e t).0 ≡ ok (cm', state')
    → (text : Text) × (e.marshal_state (told state cs loops e t) ≡ ok text)
      × (told state cs loops e t ≡ state')
      × (put_data vg_status_config_map_key text cm ≡ cm')
unfolding update_vg_status range
written cm state cs loops e t cm' state' h =
    let (text, p, q) =
      bind-ok (asks_result (λ e. e.marshal_state (told state cs loops e t)))
        (λ text. pure (put_data vg_status_config_map_key text cm, told state cs loops e t)) e t h in
    let r : (put_data vg_status_config_map_key text cm, told state cs loops e t) ≡ (cm', state') =
      ok-injective (ap (λ r. r.0) (sym q) ∙ h) in
    (text, p, ap (λ x. x.1) r, ap (λ x. x.0) r)

-- The ConfigMap holds the text of the state.
abbrev pub IsWritten : Env → ConfigMap → NodeStorageState → Type 0
IsWritten e cm state =
    (text : Text) × (e.marshal_state state ≡ ok text)
    × (lookup vg_status_config_map_key cm.data_map ≡ some text)

pub update_vg_status-IsWritten :
    (cm : ConfigMap) (state : NodeStorageState) (cs : Classes) (loops : List LoopState) (e : Env)
    (t : Trace) (cm' : ConfigMap) (state' : NodeStorageState)
    → (update_vg_status cm state cs loops e t).0 ≡ ok (cm', state')
    → IsWritten e cm' state'
update_vg_status-IsWritten cm state cs loops e t cm' state' h =
    let (text, p, q, r) = written cm state cs loops e t cm' state' h in
    (
      text,
      ap (λ (s : NodeStorageState). e.marshal_state s) (sym q) ∙ p,
      subst (λ (c : ConfigMap). lookup vg_status_config_map_key c.data_map ≡ some text) r
          (lookup-insert_self vg_status_config_map_key text cm.data_map),
    )

-- Where Go visits every key, a status that was written is that of the node with just the states of
-- the two maps and the loop devices, and its text is what the ConfigMap then holds for it.
pub update_vg_status-IsListing :
    (cm : ConfigMap) (state : NodeStorageState) (cs : Classes) (loops : List LoopState) (e : Env)
    (t : Trace) (cm' : ConfigMap) (state' : NodeStorageState)
    → VisitsAll e
    → (update_vg_status cm state cs loops e t).0 ≡ ok (cm', state')
    → IsListing cs.suc state'.success_classes
      × IsListing cs.failed state'.fail_classes
      × (state'.loops ≡ loops)
      × (state'.node ≡ state.node)
      × IsWritten e cm' state'
update_vg_status-IsListing cm state cs loops e t cm' state' visits h =
    let (text, p, q, r) = written cm state cs loops e t cm' state' h in
    (
      subst (λ (s : NodeStorageState). IsListing cs.suc s.success_classes) q
          (listing cs.suc e t visits),
      subst (λ (s : NodeStorageState). IsListing cs.failed s.fail_classes) q
          (listing cs.failed e t visits),
      ap (λ (s : NodeStorageState). s.loops) (sym q),
      ap (λ (s : NodeStorageState). s.node) (sym q),
      update_vg_status-IsWritten cm state cs loops e t cm' state' h,
    )
