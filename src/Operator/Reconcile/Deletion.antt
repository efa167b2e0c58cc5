-- ===== src/Operator/Reconcile/Deletion.antt =====
-- The end of a cluster.
use topolvm_operator.Base.{◌≡◌, refl, none, some}
use topolvm_operator.Base.Text.{Text}
use topolvm_operator.Env.{Env, Trace, ok, Error, pure, attempt}
use topolvm_operator.Env.Ensures.{
  Ensures, Ensures-pure, Ensures-crash, Ensures-or, Ensures-from, Ensures-bind,
}
use topolvm_operator.Operator.Volumes.{delete_topolvm_csi_driver}
use topolvm_operator.Operator.Reconcile.{
  Reconciler, Reply, unmade, made, closed, close_stop, delete_cluster, remove_finalizer_of,
  remove_node_capacity_annotations,
}

-- An end without an error, of a reconciler whose checker could be stopped.
abbrev WasMade : Reconciler → Reply → Type 0
WasMade r p = p.1 ≡ none → r.stop ≡ made

close_stop-made : (r : Reconciler) → Ensures (λ (x : Reconciler). r.stop ≡ made) (close_stop r)
unfolding close_stop
close_stop-made r =
    elim r.stop
      as (λ c. Ensures (λ (x : Reconciler). c ≡ made) (close_stop (record r { stop = c }))) [
        | unmade ↦ Ensures-crash
        | made ↦ Ensures-pure _ refl
        | closed ↦ Ensures-crash
      ]

failed : (r : Reconciler) (x : Error) → Ensures (WasMade r) (pure (r, some x))
failed r x = Ensures-pure (r, some x) (λ h. absurd (cc))

delete_cluster-WasMade :
    (r : Reconciler) (name : Text) → Ensures (WasMade r) (delete_cluster r name)
unfolding delete_cluster
delete_cluster-WasMade r name = Ensures-bind (attempt (remove_finalizer_of name)) _ (λ a.
    Ensures-or a _ _
      (λ u. Ensures-bind (attempt remove_node_capacity_annotations) _ (λ b.
        Ensures-or b _ _
          (λ v. Ensures-bind (attempt delete_topolvm_csi_driver) _ (λ d.
            Ensures-from (λ (x : Reconciler). r.stop ≡ made) (close_stop r) _ (close_stop-made r)
              (λ r' h. Ensures-pure (r', none) (λ q. h))))
          (λ x. failed r _)))
      (λ x. failed r _))

-- A cluster that is being deleted is done with, without an error, only by a reconciler that started
-- the status checker and did not stop it yet. One that was just made, after a restart of the operator,
-- or that was through here before, ends in an error or panics, at the closing of a channel that is nil
-- or closed.
pub delete_cluster-needs_checker :
    (r r' : Reconciler) (name : Text) (e : Env) (t : Trace)
    → (delete_cluster r name e t).0 ≡ ok (r', none)
    → r.stop ≡ made
delete_cluster-needs_checker r r' name e t h =
    (delete_cluster-WasMade r name).at e t (r', none) h refl
