-- ===== src/Util/Once.antt =====
-- How often `UpdateStatus` of pkg/operator/k8sutil/status.go tries.
use topolvm_operator.Base.{◌≡◌, refl, true, not, ◌||◌}
use topolvm_operator.Api.{TopolvmCluster}
use topolvm_operator.Env
use topolvm_operator.Env.{
  Env, Trace, Result, ok, err, panic, Error, not_found, conflict, invalid, M, fail, wrap, wrapped,
  continue, attempted,
}
use topolvm_operator.Util.{
  is_conflict, is_invalid, update_or_init, status_failed, update_status, status_tried,
}

-- No error is a conflict and invalid at once.
never_both : (x : Error) → (not (is_conflict x) || not (is_invalid x)) ≡ true
never_both (Env.exited n m) = refl
never_both (Env.unstarted m) = refl
never_both not_found = refl
never_both Env.already_exists = refl
never_both conflict = refl
never_both invalid = refl
never_both (Env.new m) = refl

after_try :
    (c : TopolvmCluster) (e : Env) (r : Result (Unit {0})) (t : Trace)
    → continue (status_tried c) e (attempted (r, t)) ≡ wrapped (status_failed c.name) (r, t)
unfolding status_tried
after_try c e (ok u) t = refl
after_try c e (err x) t = rw (never_both x) refl
after_try c e panic t = refl

-- The update of a status is tried once: whatever the API answers, its error is returned, a conflict
-- and an invalid object included, and the code that would try again is never reached.
pub update_status-once :
    (c : TopolvmCluster) (e : Env) (t : Trace)
    → update_status c e t ≡ wrap (status_failed c.name) (update_or_init c) e t
unfolding update_status update_or_init
update_status-once c e t = let (r, t') = update_or_init c e t in after_try c e r t'
