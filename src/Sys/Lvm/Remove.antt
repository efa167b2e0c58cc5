-- ===== src/Sys/Lvm/Remove.antt =====
-- When a volume group is removed, and by which commands.
use topolvm_operator.Base.{
  ◌∙◌, sym, ap, append-nil, ◌≡◌, ◌≢◌, false, List, [], ◌∷◌, ◌++◌, map, All, All-append, subst,
  arith, append_assoc,
}
use topolvm_operator.Base.Text.{Text}
use topolvm_operator.Base.Maps.{Map, keys}
use topolvm_operator.Env.{Env, Trace, Action, execute, ok, M, ◌>>=◌, ◌>>◌, execute_command, range}
use topolvm_operator.Env.Laws.{bind-ok}
use topolvm_operator.Sys.Lvm.{
  wrap_exec_command, nsenter, get_physical_volume, check_vg_has_logical_volume, each, vgremove,
  pvremove, remove_volume_group,
}
use topolvm_operator.Sys.Lvm.Quiet.{Quiet, check_vg-Quiet, get_physical_volume-Quiet}

abbrev pub ran : List Text → Action
ran c = execute (nsenter c)

-- A loop of commands that ends well has run them all, in order.
pub each-ok :
    (command : Text → List Text) (xs : List Text) (e : Env) (t : Trace)
    → (each command xs e t).0 ≡ ok tt
    → (each command xs e t).1 ≡ t ++ map (λ x. ran (command x)) xs
unfolding each wrap_exec_command execute_command
each-ok command [] e t h = sym (append-nil t)
each-ok command (x ∷ xs) e t h = ground (
  arith,
  each-ok command xs e (t ++ ran (command x) ∷ []),
  append_assoc t (ran (command x) ∷ []) (map (λ y. ran (command y)) xs),
)

remove-stops :
    (vg : Text) (e : Env) (t : Trace)
    → (check_vg_has_logical_volume vg e t).0 ≢ ok false
    → ((remove_volume_group vg e t).1 ≡ (check_vg_has_logical_volume vg e t).1)
      × ((remove_volume_group vg e t).0 ≢ ok tt)
unfolding remove_volume_group
remove-stops vg e t h = ground arith

-- Unless the report on the group could be read and names no logical volume, the removal fails, and
-- it has only read.
pub remove_volume_group-refuses :
    (vg : Text) (e : Env) (t : Trace)
    → (check_vg_has_logical_volume vg e t).0 ≢ ok false
    → (acts : Trace) × ((remove_volume_group vg e t).1 ≡ t ++ acts)
      × All Quiet acts
      × ((remove_volume_group vg e t).0 ≢ ok tt)
remove_volume_group-refuses vg e t h =
    let (same_trace, fails) = remove-stops vg e t h in
    let (acts, p, quiet) = (check_vg-Quiet vg).at e t in (acts, same_trace ∙ p, quiet, fails)

-- The order in which the names of a map are visited at a point of a run.
abbrev pub visited : {V : Type 0} → Env → Trace → Map V → List Text
visited e t m = e.order t (keys m)

abbrev removal : Text → Map Text → M (Unit {0})
removal vg pvs = do wrap_exec_command (vgremove vg); names ← range pvs; each pvremove names

abbrev listed_removal : Text → M (Unit {0})
listed_removal vg = do pvs ← get_physical_volume vg; removal vg pvs

remove-goes_on :
    (vg : Text) (e : Env) (t : Trace)
    → (remove_volume_group vg e t).0 ≡ ok tt
    → remove_volume_group vg e t ≡ listed_removal vg e (check_vg_has_logical_volume vg e t).1
unfolding remove_volume_group
remove-goes_on vg e t h = ground arith

remove-free :
    (vg : Text) (e : Env) (t : Trace)
    → (remove_volume_group vg e t).0 ≡ ok tt
    → (check_vg_has_logical_volume vg e t).0 ≡ ok false
unfolding remove_volume_group
remove-free vg e t h = ground arith

removal-ok :
    (vg : Text) (m : Map Text) (e : Env) (t : Trace)
    → (removal vg m e t).0 ≡ ok tt
    → (removal vg m e t).1
      ≡ (t ++ ran (vgremove vg) ∷ [])
        ++ map (λ pv. ran (pvremove pv)) (visited e (t ++ ran (vgremove vg) ∷ []) m)
unfolding range wrap_exec_command execute_command
removal-ok vg m e t h =
    let t' = t ++ ran (vgremove vg) ∷ [] in
    let (u, done, step) =
      bind-ok (wrap_exec_command (vgremove vg)) (λ _. range m >>= λ names. each pvremove names) e t
        h in
    ap (λ r. r.1) step ∙ each-ok pvremove (visited e t' m) e t' (ap (λ r. r.0) (sym step) ∙ h)

-- A removal that ends well has read that the group has no logical volume, listed its physical
-- volumes, and then run `vgremove`, and `pvremove` on each of them in the order of the map: these
-- are all the changes that it made.
pub remove_volume_group-ok :
    (vg : Text) (e : Env) (t : Trace)
    → (remove_volume_group vg e t).0 ≡ ok tt
    → (acts : Trace) × (m : Map Text) × All Quiet acts
      × ((check_vg_has_logical_volume vg e t).0 ≡ ok false)
      × ((get_physical_volume vg e (check_vg_has_logical_volume vg e t).1) ≡ (ok m, t ++ acts))
      × ((remove_volume_group vg e t).1
          ≡ ((t ++ acts) ++ ran (vgremove vg) ∷ [])
            ++ map (λ pv. ran (pvremove pv)) (visited e ((t ++ acts) ++ ran (vgremove vg) ∷ []) m))
remove_volume_group-ok vg e t h =
    let t' = (check_vg_has_logical_volume vg e t).1 in
    let goes_on = remove-goes_on vg e t h in
    let listed = ap (λ r. r.0) (sym goes_on) ∙ h in
    let (m, found, step) = bind-ok (get_physical_volume vg) (removal vg) e t' listed in
    let (acts, p, quiet) = (check_vg-Quiet vg).at e t in
    let (acts', p', quiet') = (get_physical_volume-Quiet vg).at e t' in
    let all = p' ∙ ap (λ u. u ++ acts') p ∙ append_assoc t acts acts' in
    (
      acts ++ acts',
      m,
      All-append Quiet acts acts' quiet quiet',
      remove-free vg e t h,
      (λ i. (found i, all i)),
      subst
          (λ u.
            (remove_volume_group vg e t).1
            ≡ (u ++ ran (vgremove vg) ∷ [])
              ++ map (λ pv. ran (pvremove pv)) (visited e (u ++ ran (vgremove vg) ∷ []) m))
          all
          (ap (λ r. r.1) (goes_on ∙ step)
            ∙ removal-ok vg m e (get_physical_volume vg e t').1
                (ap (λ r. r.0) (sym step) ∙ listed)),
    )
