-- ===== src/PrepareVg/Resize/Shrink.antt =====
-- `checkVgIfShrink`: which commands it runs, and on which volumes.
use topolvm_operator.Base.{
  ◌<◌, ◌∙◌, ap, ◌≡◌, ◌≢◌, ◌↔◌, refl, Option, none, some, List, [], arith, Has, length, All, All-map,
  select-All, select-All_not, length-select-lt, Has-length,
}
use topolvm_operator.Base.Text.{Text}
use topolvm_operator.Base.Maps.{Map, lookup, keys}
use topolvm_operator.Api.{DeviceClass, ClassState}
use topolvm_operator.Env.{Env, Trace, Error, ok, ◌>>=◌, pure, attempt, range, Outcome, value, error}
use topolvm_operator.Env.Laws.{attempt-trace, attempt-eq, bind-silent}
use topolvm_operator.Sys.Lvm.{get_physical_volume, remove_volume_group, shrink_volume_group}
use topolvm_operator.PrepareVg.Resize.Named.{
  IsNamed, unnamed, unnamed-false, unnamed-true, to_delete-exact,
}
use topolvm_operator.PrepareVg.Resize.{
  to_delete, removed_all, shrunk, shrink_listed, shrink_found, check_vg_if_shrink, change_class,
  changed,
}

-- The volumes of the group, in the order in which they are visited.
abbrev pub pvs_at : Text → Env → Trace → Map Text → List Text
pvs_at vg e t m = e.order (get_physical_volume vg e t).1 (keys m)

listed :
    (class : DeviceClass) (suc : Map ClassState) (e : Env) (t : Trace) (m : Map Text)
    → (get_physical_volume class.vg_name e t).0 ≡ ok m
    → check_vg_if_shrink class suc e t
      ≡ shrink_listed class suc
          (pvs_at class.vg_name e t m)
          (to_delete class (pvs_at class.vg_name e t m))
          e
          (get_physical_volume class.vg_name e t).1
unfolding check_vg_if_shrink shrink_found range
listed class suc e t m h =
    rw (attempt-eq (get_physical_volume class.vg_name) e t) (ground (arith, h))

changed-silent :
    (vg : Text) (f : ClassState → ClassState) (suc : Map ClassState) (o : Option ClassState)
    (e : Env) (t : Trace)
    → (changed vg f suc o e t).1 ≡ t
unfolding changed
changed-silent vg f suc none e t = refl
changed-silent vg f suc (some s) e t = refl

pub change_class-silent :
    (vg : Text) (f : ClassState → ClassState) (suc : Map ClassState) (e : Env) (t : Trace)
    → (change_class vg f suc e t).1 ≡ t
unfolding change_class
change_class-silent vg f suc e t = changed-silent vg f suc (lookup vg suc) e t

-- a change of the states that gives its result beside a value
pub change_then-silent :
    (vg : Text) (f : ClassState → ClassState) (suc : Map ClassState) (x : Option Error) (e : Env)
    (t : Trace)
    → (◌>>=◌ {B = Map ClassState × Option Error} (change_class vg f suc) (λ s. pure (s, x)) e t).1
      ≡ t
change_then-silent vg f suc x e t =
    bind-silent {B = Map ClassState × Option Error} (change_class vg f suc) (λ s. pure (s, x)) e t
      (λ s t'. refl)
    ∙ change_class-silent vg f suc e t

removed_all-silent :
    (vg : Text) (suc : Map ClassState) (e : Env) (o : Outcome (Unit {0})) (t : Trace)
    → (removed_all vg suc o e t).1 ≡ t
unfolding removed_all
removed_all-silent vg suc e (value u) t = refl
removed_all-silent vg suc e (error x) t = change_then-silent vg _ suc (some x) e t

shrunk-silent :
    (vg : Text) (names : List Text) (suc : Map ClassState) (e : Env) (o : Outcome (Unit {0}))
    (t : Trace)
    → (shrunk vg names suc o e t).1 ≡ t
unfolding shrunk
shrunk-silent vg names suc e (value u) t = change_then-silent vg _ suc none e t
shrunk-silent vg names suc e (error x) t = change_then-silent vg _ suc (some x) e t

module _ (class : DeviceClass) (suc : Map ClassState) (e : Env) (t : Trace) where
  -- What is run when the volumes are listed, by the number of those that go.
  listed-none : (pvs : List Text) → shrink_listed class suc pvs [] e t ≡ (ok (suc, none), t)
  unfolding shrink_listed
  listed-none pvs = ground arith

  listed_all :
      (pvs names : List Text)
      → length names ≡ length pvs
      → 0 < length pvs
      → shrink_listed class suc pvs names e t
        ≡ (attempt (remove_volume_group class.vg_name) >>= removed_all class.vg_name suc) e t
  unfolding shrink_listed
  listed_all pvs names p q = ground arith

  listed_some :
      (pvs names : List Text)
      → length names ≢ length pvs
      → 0 < length names
      → shrink_listed class suc pvs names e t
        ≡ (attempt (shrink_volume_group class.vg_name names) >>= shrunk class.vg_name names suc) e t
  unfolding shrink_listed
  listed_some pvs names p q = ground arith

  trace-listed_all :
      (pvs names : List Text)
      → length names ≡ length pvs
      → 0 < length pvs
      → (shrink_listed class suc pvs names e t).1 ≡ (remove_volume_group class.vg_name e t).1
  trace-listed_all pvs names p q =
      ap (λ r. r.1) (listed_all pvs names p q)
      ∙ bind-silent (attempt (remove_volume_group class.vg_name)) (removed_all class.vg_name suc) e
          t (removed_all-silent class.vg_name suc e)
      ∙ attempt-trace (remove_volume_group class.vg_name) e t

  trace-listed_some :
      (pvs names : List Text)
      → length names ≢ length pvs
      → 0 < length names
      → (shrink_listed class suc pvs names e t).1 ≡ (shrink_volume_group class.vg_name names e t).1
  trace-listed_some pvs names p q =
      ap (λ r. r.1) (listed_some pvs names p q)
      ∙ bind-silent (attempt (shrink_volume_group class.vg_name names))
          (shrunk class.vg_name names suc) e t (shrunk-silent class.vg_name names suc e)
      ∙ attempt-trace (shrink_volume_group class.vg_name names) e t

module _ (class : DeviceClass) (suc : Map ClassState) (e : Env) (t : Trace) (m : Map Text) where
  abbrev pub here : List Text
  here = pvs_at class.vg_name e t m

  -- The runs by the volumes that go, as the code counts them.
  runs :
      (get_physical_volume class.vg_name e t).0 ≡ ok m
      → (to_delete class here ≡ []
          → check_vg_if_shrink class suc e t
            ≡ (ok (suc, none), (get_physical_volume class.vg_name e t).1))
        × (length (to_delete class here) ≡ length here
            → 0 < length here
            → (check_vg_if_shrink class suc e t).1
              ≡ (remove_volume_group class.vg_name e (get_physical_volume class.vg_name e t).1).1)
        × (length (to_delete class here) ≢ length here
            → 0 < length (to_delete class here)
            → (check_vg_if_shrink class suc e t).1
              ≡ (shrink_volume_group class.vg_name
                  (to_delete class here)
                  e
                  (get_physical_volume class.vg_name e t).1).1)
  runs h =
      let t' = (get_physical_volume class.vg_name e t).1 in
      let run = listed class suc e t m h in
      (
        (λ p.
            run
            ∙ ap (λ ns. shrink_listed class suc here ns e t') p
            ∙ listed-none class suc e t' here),
        (λ p q. ap (λ r. r.1) run ∙ trace-listed_all class suc e t' here _ p q),
        (λ p q. ap (λ r. r.1) run ∙ trace-listed_some class suc e t' here _ p q),
      )

  -- Where no disk of the class names a volume, as many go as there are.
  free_ones : All (λ pv. ¬ IsNamed class.device pv) here → to_delete class here ≡ here
  unfolding to_delete
  free_ones h =
      select-All (unnamed class.device) here
        (All-map here (λ pv n. unnamed-true class.device pv n) h)

  every_one : All (IsNamed class.device) here → to_delete class here ≡ []
  unfolding to_delete
  every_one h =
      select-All_not (unnamed class.device) here
        (All-map here (λ pv n. unnamed-false class.device pv n) h)

  kept_one :
      (kept : Text)
      → Has kept here
      → IsNamed class.device kept
      → length (to_delete class here) ≢ length here
  unfolding to_delete
  kept_one kept has n p = absurd (
      omega (
        arith,
        p,
        length-select-lt (unnamed class.device) here kept has (unnamed-false class.device kept n),
      ))

  -- Where the volumes of a group can be listed, the check runs no further command and leaves the
  -- states alone if each of them is named by a disk of the specification. It removes the group if it
  -- has a volume and none is named. If one is named and another is not, it shrinks the group by just
  -- the volumes that are not named.
  pub check_vg_if_shrink-runs :
      (get_physical_volume class.vg_name e t).0 ≡ ok m
      → (All (IsNamed class.device) here
          → check_vg_if_shrink class suc e t
            ≡ (ok (suc, none), (get_physical_volume class.vg_name e t).1))
        × (All (λ pv. ¬ IsNamed class.device pv) here
            → 0 < length here
            → (check_vg_if_shrink class suc e t).1
              ≡ (remove_volume_group class.vg_name e (get_physical_volume class.vg_name e t).1).1)
        × ((kept gone : Text)
            → Has kept here × IsNamed class.device kept
            → Has gone here × ¬ IsNamed class.device gone
            → (names : List Text) × ((pv : Text)
                → Has pv names ↔ (Has pv here × ¬ IsNamed class.device pv))
              × ((check_vg_if_shrink class suc e t).1
                  ≡ (shrink_volume_group class.vg_name names e
                      (get_physical_volume class.vg_name e t).1).1))
  check_vg_if_shrink-runs h =
      let (idle, removes, shrinks) = runs h in
      (
        (λ a. idle (every_one a)),
        (λ a q. removes (ap length (free_ones a)) q),
        (λ kept gone (has, named) free. (
          to_delete class here,
          to_delete-exact class here,
          shrinks (kept_one kept has named)
              (Has-length (to_delete class here) gone ((to_delete-exact class here gone).1 free)),
        )),
      )
