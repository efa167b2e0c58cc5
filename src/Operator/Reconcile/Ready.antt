-- ===== src/Operator/Reconcile/Ready.antt =====
-- What a call of the reconciler keeps, whatever the API answers.
use topolvm_operator.Base.{◌≡◌, refl, true, Option, none, some, List, is_some, false≢true}
use topolvm_operator.Base.Text.{Text, codes, same}
use topolvm_operator.Api.{TopolvmCluster}
use topolvm_operator.Kube.{Owner}
use topolvm_operator.Env.{Error, M, pure, attempt, spawn, new}
use topolvm_operator.Env.Ensures.{
  Ensures, Ensures-pure, Ensures-crash, Ensures-if, Ensures-or, Ensures-from, Ensures-bind,
}
use topolvm_operator.Client.{is_not_found, get_cluster, list_clusters}
use topolvm_operator.Operator.{Setup}
use topolvm_operator.Operator.Volumes.{delete_topolvm_csi_driver}
use topolvm_operator.Operator.Finalizers.{
  add_finalizer_if_not_present, get_controller_object_owner_reference,
}
use topolvm_operator.Operator.Cluster.{on_add}
use topolvm_operator.Operator.Cluster.Config.{check_storage_config}
use topolvm_operator.Operator.Reconcile.{
  Reconciler, Request, Reply, Channel, unmade, made, closed, close_stop, delete_cluster,
  remove_finalizer_of, remove_node_capacity_annotations, wrapped_error, start_checker,
  start_config_maps, set_up_checked, set_up, named, reconcile_found, reconcile_only,
  reconcile_listed, is_rejected, reconcile,
}

-- The pointers that other parts of the operator follow are set before they run: with a last cluster
-- the status checker can be stopped and the controller of the ConfigMaps runs, and where that runs it
-- has an owner, and the name of the cluster is known.
pub record IsReady (r : Reconciler) : Type 0 where
  pub checker : is_some r.last_cluster ≡ true → r.stop ≡ made
  pub controller : is_some r.last_cluster ≡ true → is_some r.config_map_ref ≡ true
  pub name : is_some r.config_map_ref ≡ true → is_some r.namespaced_name ≡ true

abbrev Good : Reply → Type 0
Good p = IsReady p.0

-- Without a last cluster only the name is left to say.
stopped :
    (r : Reconciler)
    → IsReady r
    → (c : Channel) → IsReady (record r { last_cluster = none; stop = c })
stopped r h c = record {
  checker = λ q. absurd (false≢true q);
  controller = λ q. absurd (false≢true q);
  name = h.name;
}

has_name :
    (o : Option Text) (name : Text)
    → is_some (elim o as (λ x. Option Text) [ none ↦ some name | some n ↦ some n ]) ≡ true
has_name none name = refl
has_name (some n) name = refl

named-IsReady :
    (r : Reconciler) (name : Text) (c : TopolvmCluster) → IsReady r → IsReady (named r name c)
unfolding named
named-IsReady r name c h = record {
  checker = h.checker;
  controller = h.controller;
  name = λ q. has_name r.namespaced_name name;
}

close_stop-IsReady :
    (r : Reconciler) → IsReady r → Ensures IsReady (close_stop (record r { last_cluster = none }))
unfolding close_stop
close_stop-IsReady r h =
    elim r.stop
      as (λ c. Ensures IsReady (close_stop (record r { last_cluster = none; stop = c }))) [
        | unmade ↦ Ensures-crash
        | made ↦ Ensures-pure _ (stopped r h closed)
        | closed ↦ Ensures-crash
      ]

good : (r : Reconciler) (x : Option Error) → IsReady r → Ensures Good (pure (r, x))
good r x h = Ensures-pure (r, x) h

delete_cluster-Good :
    (r : Reconciler) (name : Text)
    → IsReady r
    → Ensures Good (delete_cluster (record r { last_cluster = none }) name)
unfolding delete_cluster
delete_cluster-Good r name h =
    let h' = stopped r h r.stop in
    Ensures-bind (attempt (remove_finalizer_of name)) _ (λ a.
      Ensures-or a _ _
        (λ u. Ensures-bind (attempt remove_node_capacity_annotations) _ (λ b.
          Ensures-or b _ _
            (λ v. Ensures-bind (attempt delete_topolvm_csi_driver) _ (λ d.
              Ensures-from IsReady (close_stop (record r { last_cluster = none })) _
                (close_stop-IsReady r h) (λ r' h2. good r' none h2)))
            (λ x. good _ _ h')))
        (λ x. good _ _ h'))

-- What holds when the controller of the ConfigMaps runs, and when the checker runs too.
record HasController (r : Reconciler) : Type 0 where
  checker : is_some r.last_cluster ≡ true → r.stop ≡ made
  controller : is_some r.config_map_ref ≡ true
  name : is_some r.namespaced_name ≡ true

record HasBoth (r : Reconciler) : Type 0 where
  checker : r.stop ≡ made
  controller : is_some r.config_map_ref ≡ true
  name : is_some r.namespaced_name ≡ true

HasBoth-IsReady :
    (r : Reconciler) (last : Option TopolvmCluster)
    → HasBoth r
    → IsReady (record r { last_cluster = last })
HasBoth-IsReady r last h = record {
  checker = λ q. h.checker;
  controller = λ q. h.controller;
  name = λ q. h.name;
}

with_ref :
    (r : Reconciler) (ref : Owner)
    → IsReady r
    → is_some r.namespaced_name ≡ true
    → HasController (record r { config_map_ref = some ref })
with_ref r ref h n = record { checker = h.checker; controller = refl; name = n }

start_config_maps-HasController :
    (r : Reconciler) (ref : Owner)
    → IsReady r
    → is_some r.namespaced_name ≡ true
    → Ensures HasController (start_config_maps r ref)
unfolding start_config_maps
start_config_maps-HasController r ref h n =
    elim r.config_map_ref
      as (λ o. Ensures HasController (start_config_maps (record r { config_map_ref = o }) ref)) [
        | none ↦
            Ensures-bind (spawn (codes "ConfigMapController")) _
              (λ u. Ensures-pure _ (with_ref r ref h n))
        | some old ↦ Ensures-pure _ (with_ref r ref h n)
      ]

checked :
    (r : Reconciler) (last : Option TopolvmCluster)
    → HasController (record r { last_cluster = last })
    → Ensures HasBoth (start_checker (record r { last_cluster = last }))
unfolding start_checker
checked r none h =
    Ensures-bind (spawn (codes "CheckClusterStatus")) _
      (λ u. Ensures-pure _ (record { checker = refl; controller = h.controller; name = h.name }))
checked r (some c) h =
    Ensures-pure _ (record { checker = h.checker refl; controller = h.controller; name = h.name })

set_up_checked-Good :
    (s : Setup) (r : Reconciler) (c : TopolvmCluster) (ref : Owner)
    → IsReady r
    → is_some r.namespaced_name ≡ true
    → Ensures Good (set_up_checked s r c ref)
unfolding set_up_checked
set_up_checked-Good s r c ref h n =
    Ensures-from HasController (start_config_maps r ref) _
      (start_config_maps-HasController r ref h n)
      (λ r1 h1. Ensures-from HasBoth (start_checker r1) _ (checked r1 r1.last_cluster h1) (λ r2 h2.
        Ensures-bind (attempt (on_add s r2.globals r2.last_cluster c ref)) _ (λ a.
          Ensures-or a _ _ (λ u. good _ _ (HasBoth-IsReady r2 (some c) h2))
            (λ x. good r2 _ (HasBoth-IsReady r2 r2.last_cluster h2)))))

with_owner :
    (s : Setup) (r : Reconciler) (c : TopolvmCluster) (ref : Owner)
    → IsReady r
    → is_some r.namespaced_name ≡ true
    → (o : Option Text)
    → Ensures Good (elim o as (λ x. M Reply) [
      | some m ↦ pure (r, some (wrapped_error (codes "check storage config failed") (new m)))
      | none ↦ set_up_checked s r c ref
    ])
with_owner s r c ref h n none = set_up_checked-Good s r c ref h n
with_owner s r c ref h n (some m) = good r _ h

set_up-Good :
    (s : Setup) (r : Reconciler) (c : TopolvmCluster)
    → IsReady r
    → is_some r.namespaced_name ≡ true
    → Ensures Good (set_up s r c)
unfolding set_up
set_up-Good s r c h n = Ensures-bind (attempt (get_controller_object_owner_reference c)) _ (λ a.
    Ensures-or a _ _
      (λ ref.
        with_owner s (record r { cluster_ref = some ref }) c ref
          (record { checker = h.checker; controller = h.controller; name = h.name }) n
          (check_storage_config c.spec.storage))
      (λ x. good r _ h))

reconcile_found-Good :
    (s : Setup) (r : Reconciler) (name : Text) (c : TopolvmCluster)
    → IsReady r
    → Ensures Good (reconcile_found s r name c)
unfolding named reconcile_found
reconcile_found-Good s r name c h =
    let r' = named r name c in
    let h' = named-IsReady r name c h in
    Ensures-bind (attempt (add_finalizer_if_not_present c)) _ (λ a.
      Ensures-or a _ _
        (λ c'.
          Ensures-if c'.deleted (delete_cluster (record r' { last_cluster = none }) name)
            (set_up s r' c') (delete_cluster-Good r' name h')
            (set_up-Good s r' c' h' (has_name r.namespaced_name name)))
        (λ x. good r' _ h'))

reconcile_only-Good :
    (s : Setup) (r : Reconciler) (name : Text) → IsReady r → Ensures Good (reconcile_only s r name)
unfolding reconcile_only
reconcile_only-Good s r name h = Ensures-bind (attempt (get_cluster name)) _ (λ a.
    Ensures-or a _ _ (λ c. reconcile_found-Good s r name c h)
      (λ x. Ensures-if (is_not_found x) (pure (r, none)) _ (good r none h) (good r _ h)))

reconcile_listed-Good :
    (s : Setup) (r : Reconciler) (name : Text) (o : Option (List TopolvmCluster))
    → IsReady r
    → Ensures Good (reconcile_listed s r name o)
unfolding reconcile_listed
reconcile_listed-Good s r name none h = good r _ h
reconcile_listed-Good s r name (some cs) h =
    Ensures-if (is_rejected name cs) (pure (r, none)) _ (good r none h)
      (reconcile_only-Good s r name h)

pub reconcile-IsReady :
    (s : Setup) (r : Reconciler) (q : Request)
    → IsReady r
    → Ensures (λ (p : Reply). IsReady p.0) (reconcile s r q)
unfolding reconcile
reconcile-IsReady s r q h =
    Ensures-if (same q.namespace r.globals.namespace) _ (pure (r, none))
      (Ensures-bind (attempt list_clusters) _
        (λ a. Ensures-or a _ _ (λ cs. reconcile_listed-Good s r q.name cs h) (λ x. good r _ h)))
      (good r none h)
