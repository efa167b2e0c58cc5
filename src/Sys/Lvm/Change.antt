-- ===== src/Sys/Lvm/Change.antt =====
-- When a volume group is shrunk or made, and by which commands.
use topolvm_operator.Base.{
  ◌∙◌, sym, ap, ◌≡◌, ◌≢◌, false, List, [], ◌∷◌, ◌++◌, map, All, subst, arith, append_assoc,
}
use topolvm_operator.Base.Text.{Text, codes}
use topolvm_operator.Api.{Disk}
use topolvm_operator.Env.{Env, Trace, ok, M, ◌>>◌, execute_command}
use topolvm_operator.Env.Laws.{bind-ok}
use topolvm_operator.Env.Safe.{IsSafe, IsSafe-bind, IsSafe-execute, safe_rules}
use topolvm_operator.Sys.Lvm.{
  wrap_exec_command, lvm, check_pv_has_logical_volume, check_free, each, pvcreate, names_of,
  shrink_volume_group, create_volume_group,
}
use topolvm_operator.Sys.Lvm.Quiet.{Quiet, check_free-Quiet}
use topolvm_operator.Sys.Lvm.Remove.{ran, each-ok}

-- The report on each volume, taken at its point of the run, names no logical volume.
abbrev pub AllFree : List Text → Env → Trace → Type 0
AllFree [] e t = Unit
AllFree (pv ∷ pvs) e t =
    ((check_pv_has_logical_volume pv e t).0 ≡ ok false)
    × AllFree pvs e (check_pv_has_logical_volume pv e t).1

check_free_step :
    (pv : Text) (pvs : List Text) (e : Env) (t : Trace)
    → (check_free (pv ∷ pvs) e t).0 ≡ ok tt
    → ((check_pv_has_logical_volume pv e t).0 ≡ ok false)
      × ((check_free pvs e (check_pv_has_logical_volume pv e t).1).0 ≡ ok tt)
unfolding check_free
check_free_step pv pvs e t h = ground arith

check_free-AllFree :
    (pvs : List Text) (e : Env) (t : Trace) → (check_free pvs e t).0 ≡ ok tt → AllFree pvs e t
check_free-AllFree [] e t h = tt
check_free-AllFree (pv ∷ pvs) e t h =
    let (free, rest) = check_free_step pv pvs e t h in
    (free, check_free-AllFree pvs e (check_pv_has_logical_volume pv e t).1 rest)

shrink-stops :
    (vg : Text) (pvs : List Text) (e : Env) (t : Trace)
    → (check_free pvs e t).0 ≢ ok tt
    → ((shrink_volume_group vg pvs e t).1 ≡ (check_free pvs e t).1)
      × ((shrink_volume_group vg pvs e t).0 ≢ ok tt)
unfolding shrink_volume_group
shrink-stops vg pvs e t h = ground arith

-- Unless each of the volumes is known to hold no logical volume, the shrinking fails, and it has
-- only read.
pub shrink_volume_group-refuses :
    (vg : Text) (pvs : List Text) (e : Env) (t : Trace)
    → ¬ AllFree pvs e t
    → (acts : Trace) × ((shrink_volume_group vg pvs e t).1 ≡ t ++ acts)
      × All Quiet acts
      × ((shrink_volume_group vg pvs e t).0 ≢ ok tt)
shrink_volume_group-refuses vg pvs e t h =
    let (same_trace, fails) =
      shrink-stops vg pvs e t (λ done. h (check_free-AllFree pvs e t done)) in
    let (acts, p, quiet) = (check_free-Quiet pvs).at e t in (acts, same_trace ∙ p, quiet, fails)

abbrev reduction : Text → List Text → M (Unit {0})
reduction vg pvs = do
  wrap_exec_command (lvm (codes "vgreduce") (vg ∷ pvs))
  wrap_exec_command (lvm (codes "pvremove") pvs)

reduction-ok :
    (vg : Text) (pvs : List Text) (e : Env) (t : Trace)
    → (reduction vg pvs e t).0 ≡ ok tt
    → (reduction vg pvs e t).1
      ≡ t ++ ran (lvm (codes "vgreduce") (vg ∷ pvs)) ∷ ran (lvm (codes "pvremove") pvs) ∷ []
unfolding wrap_exec_command execute_command
reduction-ok vg pvs e t h =
    let step =
      (bind-ok (wrap_exec_command (lvm (codes "vgreduce") (vg ∷ pvs)))
        (λ _. wrap_exec_command (lvm (codes "pvremove") pvs)) e t h).2 in
    ap (λ r. r.1) step ∙ append_assoc t _ _

-- A shrinking that ends well has read that each of the volumes is free, and then run `vgreduce` and
-- `pvremove` on just these volumes, and changed nothing else.
pub shrink_volume_group-ok :
    (vg : Text) (pvs : List Text) (e : Env) (t : Trace)
    → (shrink_volume_group vg pvs e t).0 ≡ ok tt
    → (acts : Trace) × All Quiet acts
      × AllFree pvs e t
      × ((shrink_volume_group vg pvs e t).1
          ≡ (t ++ acts)
            ++ ran (lvm (codes "vgreduce") (vg ∷ pvs)) ∷ ran (lvm (codes "pvremove") pvs) ∷ [])
unfolding shrink_volume_group
shrink_volume_group-ok vg pvs e t h =
    let (u, free, step) = bind-ok (check_free pvs) (λ _. reduction vg pvs) e t h in
    let (acts, p, quiet) = (check_free-Quiet pvs).at e t in
    (
      acts,
      quiet,
      check_free-AllFree pvs e t free,
      subst
          (λ w.
            (shrink_volume_group vg pvs e t).1
            ≡ w ++ ran (lvm (codes "vgreduce") (vg ∷ pvs)) ∷ ran (lvm (codes "pvremove") pvs) ∷ [])
          p
          (ap (λ r. r.1) step
            ∙ reduction-ok vg pvs e (check_free pvs e t).1 (ap (λ r. r.0) (sym step) ∙ h)),
    )

-- Making a volume group that ends well has run `pvcreate` on each disk, in order, and then
-- `vgcreate` on all of them, and nothing else.
pub create_volume_group-ok :
    (disks : List Disk) (vg : Text) (e : Env) (t : Trace)
    → (create_volume_group disks vg e t).0 ≡ ok tt
    → (create_volume_group disks vg e t).1
      ≡ (t ++ map (λ n. ran (pvcreate n)) (names_of disks))
        ++ ran (lvm (codes "vgcreate") (vg ∷ names_of disks)) ∷ []
unfolding create_volume_group
create_volume_group-ok disks vg e t h =
    let (u, made, step) =
      bind-ok (each pvcreate (names_of disks))
        (λ _. wrap_exec_command (lvm (codes "vgcreate") (vg ∷ names_of disks))) e t h in
    ap (λ r. r.1) step
    ∙ unfold wrap_exec_command execute_command in
      ap (λ w. w ++ ran (lvm (codes "vgcreate") (vg ∷ names_of disks)) ∷ [])
        (each-ok pvcreate (names_of disks) e t made)

-- Where a `pvcreate` fails the rest is not tried, and no volume group is made.
pub create_volume_group-stops :
    (disks : List Disk) (vg : Text) (e : Env) (t : Trace)
    → (each pvcreate (names_of disks) e t).0 ≢ ok tt
    → ((create_volume_group disks vg e t).1 ≡ (each pvcreate (names_of disks) e t).1)
      × ((create_volume_group disks vg e t).0 ≢ ok tt)
unfolding create_volume_group
create_volume_group-stops disks vg e t h = ground arith

each-IsSafe : (command : Text → List Text) (xs : List Text) → IsSafe (each command xs)
unfolding each wrap_exec_command
each-IsSafe command [] = search safe_rules
each-IsSafe command (x ∷ xs) =
    IsSafe-bind (wrap_exec_command (command x)) (λ _. each command xs) (IsSafe-execute _)
      (λ _. each-IsSafe command xs)

pub create_volume_group-IsSafe :
    (disks : List Disk) (vg : Text) → IsSafe (create_volume_group disks vg)
unfolding create_volume_group wrap_exec_command
create_volume_group-IsSafe disks vg = search (safe_rules, each-IsSafe)
