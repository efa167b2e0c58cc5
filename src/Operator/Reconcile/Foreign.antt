-- ===== src/Operator/Reconcile/Foreign.antt =====
-- Requests that the reconciler does not serve.
use topolvm_operator.Base.{
  ◌≡◌, refl, inl, inr, Bool, true, false, none, some, List, [], ◌∷◌, ◌++◌, Has, ℕ, ◌≤◌, ltb, ltb→lt,
  arith, subst, if◌then◌else◌,
}
use topolvm_operator.Base.Text.{same}
use topolvm_operator.Api.{TopolvmCluster}
use topolvm_operator.Kube.{topolvm_cluster}
use topolvm_operator.Env.{Env, Trace, ok, list_objects}
use topolvm_operator.Operator.{Setup}
use topolvm_operator.Operator.Reconcile.{
  Reconciler, Request, oldest, is_rejected, reconcile_listed, reconcile,
}

-- A cluster of the list that is not younger than any of them.
abbrev pub IsLeast : TopolvmCluster → List TopolvmCluster → Type 0
IsLeast o cs = Has o cs × ((c : TopolvmCluster) → Has c cs → o.created ≤ c.created)

younger : (a b : TopolvmCluster) (n : ℕ) → n ≤ a.created → a ≡ b → n ≤ b.created
younger a b n h p = subst (λ c. n ≤ c.created) p h

keep-IsLeast :
    (b : Bool) (o c m : TopolvmCluster) (cs : List TopolvmCluster)
    → ltb c.created o.created ≡ b
    → IsLeast m ((if b then c else o) ∷ cs)
    → IsLeast m (o ∷ c ∷ cs)
keep-IsLeast true o c m cs h (has, least) = (
  inr has,
  λ x z. elim z [
    | inl p ↦
        younger o x m.created (omega (arith, least c (inl refl), ltb→lt c.created o.created h)) p
    | inr q ↦ least x q
  ],
)
keep-IsLeast false o c m cs h (has, least) = (
  elim has [ inl p ↦ inl p | inr q ↦ inr (inr q) ],
  λ x q. elim q [
    | inl p ↦ least x (inl p)
    | inr r ↦ elim r [
      | inl p ↦ younger c x m.created (ground (arith, h, least o (inl refl))) p
      | inr z ↦ least x (inr z)
    ]
  ],
)

oldest-IsLeast : (o : TopolvmCluster) (cs : List TopolvmCluster) → IsLeast (oldest o cs) (o ∷ cs)
unfolding oldest
oldest-IsLeast o [] =
    (inl refl, λ c q. elim q [ inl p ↦ younger o c o.created (omega arith) p | inr z ↦ absurd z ])
oldest-IsLeast o (c ∷ cs) =
    keep-IsLeast (ltb c.created o.created) o c _ cs refl
      (oldest-IsLeast (if ltb c.created o.created then c else o) cs)

-- Of several clusters that the API lists only the oldest is served: none of them is older, and a
-- request for another name, from the operator's own namespace, ends without an error and changes
-- nothing, neither in the API, which is only asked for the list, nor in the reconciler.
pub reconcile-serves_oldest :
    (s : Setup) (r : Reconciler) (q : Request) (e : Env) (t : Trace) (c d : TopolvmCluster)
    (cs : List TopolvmCluster)
    → (e.kube t).listed_clusters ≡ ok (some (c ∷ d ∷ cs))
    → same q.namespace r.globals.namespace ≡ true
    → same q.name (oldest c (d ∷ cs)).name ≡ false
    → IsLeast (oldest c (d ∷ cs)) (c ∷ d ∷ cs)
      × (reconcile s r q e t ≡ (ok (r, none), t ++ list_objects topolvm_cluster [] ∷ []))
unfolding reconcile reconcile_listed is_rejected
reconcile-serves_oldest s r q e t c d cs h k n = (oldest-IsLeast c (d ∷ cs), rw (k, h, n) refl)
