-- ===== src/Operator/Reconcile/Runs.antt =====
-- The reconciler over its whole life: any calls, with any answers of the API.
use topolvm_operator.Base.{◌≡◌, Option, none, false≢true}
use topolvm_operator.Cluster.{Globals}
use topolvm_operator.Env.{Env, Trace, ok, Error}
use topolvm_operator.Operator.{Setup}
use topolvm_operator.Operator.Reconcile.{Reconciler, Request, unmade, reconcile}
use topolvm_operator.Operator.Reconcile.Ready.{IsReady, reconcile-IsReady}

-- A reconciler as it is made.
abbrev pub fresh : Globals → Reconciler
fresh g = record {
  globals = g;
  namespaced_name = none;
  last_cluster = none;
  cluster_ref = none;
  config_map_ref = none;
  stop = unmade;
}

-- One call that returns.
pub data Step (s : Setup) : Reconciler → Reconciler → Type 0 where
  call :
      {r r' : Reconciler} (q : Request) (e : Env) (t : Trace) (x : Option Error)
      → (reconcile s r q e t).0 ≡ ok (r', x)
      → Step s r r'

pub data Reach (s : Setup) (r : Reconciler) : Reconciler → Type 0 where
  here : Reach s r r
  next : {u v : Reconciler} → Reach s r u → Step s u v → Reach s r v

fresh-IsReady : (g : Globals) → IsReady (fresh g)
fresh-IsReady g = record {
  checker = λ h. absurd (false≢true h);
  controller = λ h. absurd (false≢true h);
  name = λ h. absurd (false≢true h);
}

Step-IsReady : (s : Setup) {r r' : Reconciler} → Step s r r' → IsReady r → IsReady r'
Step-IsReady s (call q e t x p) h = (reconcile-IsReady s _ q h).at e t _ p

-- However often the reconciler is called, for whatever requests and with whatever answers of the API,
-- failures included, it is ready after each call that returns: where it has a last cluster the channel
-- that stops the status checker is made and not closed and the controller of the ConfigMaps was
-- started, and where that controller was started the name of the cluster is known.
pub reachable-IsReady : (s : Setup) (g : Globals) (r : Reconciler) → Reach s (fresh g) r → IsReady r
reachable-IsReady s g r here = fresh-IsReady g
reachable-IsReady s g r (next p q) = Step-IsReady s q (reachable-IsReady s g _ p)
