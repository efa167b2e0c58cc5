-- ===== src/PrepareVg/Create/Records.antt =====
-- What `createVg` and `createVgRetry` record of a class.
use topolvm_operator.Base.{
  ◌∙◌, sym, ap, subst, ◌≡◌, ◌≢◌, refl, true, false, Option, none, some, List, [], ◌∷◌, arith,
}
use topolvm_operator.Base.Text.{Text, same_iff, same_refl}
use topolvm_operator.Base.Maps.{
  Map, lookup, insert, delete, has_key, lookup-insert, lookup-insert_self, lookup-delete,
}
use topolvm_operator.Api.{DeviceClass, LoopState, ClassState, class_ready}
use topolvm_operator.Env.{Env, Trace, ok, pure, attempt, Outcome, value, error}
use topolvm_operator.Env.Safe.{Returns-attempt, Returns-pure, Returns-bind}
use topolvm_operator.Env.Laws.{bind-ok, ok-injective}
use topolvm_operator.Sys.Device.{LocalDisk}
use topolvm_operator.Sys.Lvm.{create_volume_group}
use topolvm_operator.Sys.Lvm.Change.{create_volume_group-IsSafe}
use topolvm_operator.PrepareVg.{Classes}
use topolvm_operator.PrepareVg.Create.{
  Created, check_disks, created, create_checked, create_vg, retried, noted, retry_checked,
  create_vg_retry,
}

-- A success is a ready state in the one map, a failure a state that is not ready in the other; each
-- leaves the other map and all other classes alone.
pub record IsRecorded (vg : Text) (cs : Classes) (r : Created) : Type 0 where
  pub on_success :
      r.success ≡ true
      → (s : ClassState) × (lookup vg r.classes.suc ≡ some s)
        × (s.state ≡ class_ready)
        × (r.classes.failed ≡ cs.failed)
  pub on_failure :
      r.success ≡ false
      → (s : ClassState) × (lookup vg r.classes.failed ≡ some s)
        × (s.state ≢ class_ready)
        × (r.classes.suc ≡ cs.suc)
  pub others :
      (j : Text)
      → j ≢ vg
      → (lookup j r.classes.suc ≡ lookup j cs.suc)
        × (lookup j r.classes.failed ≡ lookup j cs.failed)

lookup-insert_ne :
    (k j : Text) (v : ClassState) (m : Map ClassState)
    → j ≢ k
    → lookup j (insert k v m) ≡ lookup j m
lookup-insert_ne k j v m h = ground (arith, lookup-insert k j v m, same_iff k j)

lookup-delete_ne : (k j : Text) (m : Map ClassState) → j ≢ k → lookup j (delete k m) ≡ lookup j m
lookup-delete_ne k j m h = ground (arith, lookup-delete k j m, same_iff k j)

created-IsRecorded :
    (class : DeviceClass) (cs : Classes) (o : Outcome (Unit {0}))
    → IsRecorded class.vg_name cs (created class cs o)
unfolding created
created-IsRecorded class cs (value u) = record {
  on_success = λ p. (_, lookup-insert_self class.vg_name _ cs.suc, refl, refl);
  on_failure = λ p. absurd (cc);
  others = λ j h. (lookup-insert_ne class.vg_name j _ cs.suc h, refl);
}
created-IsRecorded class cs (error x) = record {
  on_success = λ p. absurd (cc);
  on_failure = λ p. (_, lookup-insert_self class.vg_name _ cs.failed, (λ q. cc), refl);
  others = λ j h. (refl, lookup-insert_ne class.vg_name j _ cs.failed h);
}

create_checked-IsRecorded :
    (class : DeviceClass) (cs : Classes) (names : List Text) (e : Env) (t : Trace)
    → (r : Created) × ((create_checked class cs names e t).0 ≡ ok r) × IsRecorded class.vg_name cs r
unfolding create_checked
create_checked-IsRecorded class cs [] e t =
    let made = create_volume_group class.device class.vg_name in
    let (r, p) =
      (Returns-bind (attempt made) (λ o. pure (created class cs o))
          (Returns-attempt made (create_volume_group-IsSafe class.device class.vg_name))
          (λ o. Returns-pure (created class cs o))).at
        e t in
    let (o, q, step) = bind-ok (attempt made) (λ o. pure (created class cs o)) e t p in
    (
      r,
      p,
      subst (IsRecorded class.vg_name cs) (ok-injective (ap (λ w. w.0) (sym step) ∙ p))
          (created-IsRecorded class cs o),
    )
create_checked-IsRecorded class cs (n ∷ names) e t = (
  _,
  refl,
  record {
    on_success = λ p. absurd (cc);
    on_failure = λ p. (_, lookup-insert_self class.vg_name _ cs.failed, (λ q. cc), refl);
    others = λ j h. (refl, lookup-insert_ne class.vg_name j _ cs.failed h);
  },
)

-- Making the group of a class always returns, and records it either as ready or as failed, never as
-- both, and touches no other class.
pub create_vg-IsRecorded :
    (loop_map : Map LoopState) (disks : Map LocalDisk) (class : DeviceClass) (cs : Classes)
    (e : Env) (t : Trace)
    → (r : Created) × ((create_vg loop_map disks class cs e t).0 ≡ ok r)
      × IsRecorded class.vg_name cs r
unfolding create_vg
create_vg-IsRecorded loop_map disks class cs e t =
    let c = check_disks loop_map disks class.device in
    create_checked-IsRecorded (record class { device = c.devices }) cs c.missing e t

-- A retry: a success moves the class from the one map to the other, a failure leaves it failed.
pub record IsMoved (vg : Text) (cs : Classes) (r : Created) : Type 0 where
  pub on_success :
      r.success ≡ true
      → (s : ClassState) × (lookup vg r.classes.suc ≡ some s)
        × (s.state ≡ class_ready)
        × (lookup vg r.classes.failed ≡ none)
  pub on_failure :
      r.success ≡ false → (has_key vg r.classes.failed ≡ true) × (r.classes.suc ≡ cs.suc)
  pub others :
      (j : Text)
      → j ≢ vg
      → (lookup j r.classes.suc ≡ lookup j cs.suc)
        × (lookup j r.classes.failed ≡ lookup j cs.failed)

retried-IsMoved :
    (class : DeviceClass) (cs : Classes) (o : Outcome (Unit {0}))
    → has_key class.vg_name cs.failed ≡ true
    → IsMoved class.vg_name cs (retried class cs o)
unfolding retried
retried-IsMoved class cs (value u) h = record {
  on_success = λ p. (
    _,
    lookup-insert_self class.vg_name _ cs.suc,
    refl,
    ground (arith, lookup-delete class.vg_name class.vg_name cs.failed, same_refl class.vg_name),
  );
  on_failure = λ p. absurd (cc);
  others = λ j n.
      (lookup-insert_ne class.vg_name j _ cs.suc n, lookup-delete_ne class.vg_name j cs.failed n);
}
retried-IsMoved class cs (error x) h = record {
  on_success = λ p. absurd (cc);
  on_failure = λ p. (h, refl);
  others = λ j n. (refl, refl);
}

noted-IsMoved :
    (class : DeviceClass) (names : List Text) (cs : Classes) (o : Option ClassState) (e : Env)
    (t : Trace)
    → lookup class.vg_name cs.failed ≡ o
    → has_key class.vg_name cs.failed ≡ true
    → (r : Created) × ((noted class names cs o e t).0 ≡ ok r) × IsMoved class.vg_name cs r
unfolding noted
noted-IsMoved class names cs none e t p h = absurd (cc (p, h))
noted-IsMoved class names cs (some s) e t p h = (
  _,
  refl,
  record {
    on_success = λ q. absurd (cc);
    on_failure = λ q. (rw (lookup-insert_self class.vg_name _ cs.failed), refl);
    others = λ j n. (refl, lookup-insert_ne class.vg_name j _ cs.failed n);
  },
)

retry_checked-IsMoved :
    (class : DeviceClass) (cs : Classes) (names : List Text) (e : Env) (t : Trace)
    → has_key class.vg_name cs.failed ≡ true
    → (r : Created) × ((retry_checked class cs names e t).0 ≡ ok r) × IsMoved class.vg_name cs r
unfolding retry_checked
retry_checked-IsMoved class cs [] e t h =
    let made = create_volume_group class.device class.vg_name in
    let (r, p) =
      (Returns-bind (attempt made) (λ o. pure (retried class cs o))
          (Returns-attempt made (create_volume_group-IsSafe class.device class.vg_name))
          (λ o. Returns-pure (retried class cs o))).at
        e t in
    let (o, q, step) = bind-ok (attempt made) (λ o. pure (retried class cs o)) e t p in
    (
      r,
      p,
      subst (IsMoved class.vg_name cs) (ok-injective (ap (λ w. w.0) (sym step) ∙ p))
          (retried-IsMoved class cs o h),
    )
retry_checked-IsMoved class cs (n ∷ names) e t h =
    noted-IsMoved class (n ∷ names) cs (lookup class.vg_name cs.failed) e t refl h

-- Trying a failed class again always returns. A success moves the class to the ready ones and out
-- of the failed ones, a failure leaves it among the failed ones, and no other class is touched.
pub create_vg_retry-IsMoved :
    (loop_map : Map LoopState) (disks : Map LocalDisk) (class : DeviceClass) (cs : Classes)
    (e : Env) (t : Trace)
    → has_key class.vg_name cs.failed ≡ true
    → (r : Created) × ((create_vg_retry loop_map disks class cs e t).0 ≡ ok r)
      × IsMoved class.vg_name cs r
unfolding create_vg_retry
create_vg_retry-IsMoved loop_map disks class cs e t h =
    let c = check_disks loop_map disks class.device in
    retry_checked-IsMoved (record class { device = c.devices }) cs c.missing e t h
