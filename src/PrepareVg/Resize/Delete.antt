-- ===== src/PrepareVg/Resize/Delete.antt =====
-- `checkVgIfDelete`: what it leaves of the maps.
use topolvm_operator.Base.{
  ◌∙◌, sym, ap, subst, ◌≡◌, ◌≢◌, refl, Bool, true, false, false≢true, none, List, [], ◌∷◌, arith,
  Has, inl, inr, if◌then◌else◌, Bool-cases,
}
use topolvm_operator.Base.Text.{Text, same_iff, same_refl}
use topolvm_operator.Base.Maps.{Map, lookup, delete, has_key, keys, lookup-delete, keys-Has}
use topolvm_operator.Api.{DeviceClass, ClassState}
use topolvm_operator.Env.{Env, Trace, ok, ◌>>=◌, ◌>>◌, pure, attempt, range}
use topolvm_operator.Env.Laws.{bind-ok, ok-injective}
use topolvm_operator.Sys.Lvm.{remove_volume_group}
use topolvm_operator.PrepareVg.{Classes}
use topolvm_operator.PrepareVg.Resize.{specified, delete_groups, forget_failed, check_vg_if_delete}

-- Go visits every key of a map.
abbrev pub VisitsAll : Env → Type 0
VisitsAll e = (t : Trace) (ks : List Text) (k : Text) → Has k ks → Has k (e.order t ks)

-- The map after the loop: the groups of the specification are as before, what was absent stays so,
-- and what was visited and is not specified is gone.
record IsCut (classes : List DeviceClass) (vgs : List Text) (m m' : Map ClassState) : Type 0 where
  kept : (j : Text) → specified classes j ≡ true → lookup j m' ≡ lookup j m
  absent : (j : Text) → lookup j m ≡ none → lookup j m' ≡ none
  gone : (j : Text) → Has j vgs → specified classes j ≡ false → lookup j m' ≡ none

module _ (classes : List DeviceClass) where
  IsCut-keep :
      (vg : Text) (vgs : List Text) (m m' : Map ClassState)
      → specified classes vg ≡ true
      → IsCut classes vgs m m'
      → IsCut classes (vg ∷ vgs) m m'
  IsCut-keep vg vgs m m' s c = record {
    kept = c.kept;
    absent = c.absent;
    gone = λ j has p. elim has [
      | inl e ↦ absurd (false≢true (sym p ∙ subst (λ k. specified classes k ≡ true) e s))
      | inr r ↦ c.gone j r p
    ];
  }

  delete_ne : (vg j : Text) (m : Map ClassState) → vg ≢ j → lookup j (delete vg m) ≡ lookup j m
  delete_ne vg j m h = ground (arith, lookup-delete vg j m, same_iff vg j)

  delete_absent :
      (vg j : Text) (m : Map ClassState) → lookup j m ≡ none → lookup j (delete vg m) ≡ none
  delete_absent vg j m h = ground (arith, lookup-delete vg j m)

  delete_self : (vg : Text) (m : Map ClassState) → lookup vg (delete vg m) ≡ none
  delete_self vg m = ground (arith, lookup-delete vg vg m, same_refl vg)

  IsCut-delete :
      (vg : Text) (vgs : List Text) (m m' : Map ClassState)
      → specified classes vg ≡ false
      → IsCut classes vgs (delete vg m) m'
      → IsCut classes (vg ∷ vgs) m m'
  IsCut-delete vg vgs m m' s c = record {
    kept = λ j p.
        c.kept j p
        ∙ delete_ne vg j m
            (λ e. false≢true (sym s ∙ subst (λ k. specified classes k ≡ true) (sym e) p));
    absent = λ j p. c.absent j (delete_absent vg j m p);
    gone = λ j has p. elim has [
      | inl e ↦ c.absent j (subst (λ k. lookup k (delete vg m) ≡ none) e (delete_self vg m))
      | inr r ↦ c.gone j r p
    ];
  }

  IsCut-nil : (m : Map ClassState) → IsCut classes [] m m
  IsCut-nil m = record { kept = λ j p. refl; absent = λ j p. p; gone = λ j has p. absurd has }

  IsCut-step :
      (b : Bool) (vg : Text) (vgs : List Text) (m : Map ClassState) (e : Env) (t : Trace)
      {m' : Map ClassState}
      → specified classes vg ≡ b
      → ((t' : Trace) (n n' : Map ClassState)
          → (delete_groups classes vgs n e t').0 ≡ ok n'
          → IsCut classes vgs n n')
      → ((if b
            then delete_groups classes vgs m
            else (attempt (remove_volume_group vg) >> delete_groups classes vgs (delete vg m)))
          e t).0
        ≡ ok m'
      → IsCut classes (vg ∷ vgs) m m'
  IsCut-step true vg vgs m e t {m'} s ih h = IsCut-keep vg vgs m m' s (ih t m m' h)
  IsCut-step false vg vgs m e t {m'} s ih h =
      let (o, p, step) =
        bind-ok (attempt (remove_volume_group vg)) (λ _. delete_groups classes vgs (delete vg m)) e
          t h in
      IsCut-delete vg vgs m m' s (ih _ (delete vg m) m' (ap (λ r. r.0) (sym step) ∙ h))

  delete_groups-IsCut :
      (vgs : List Text) (m : Map ClassState) (e : Env) (t : Trace) {m' : Map ClassState}
      → (delete_groups classes vgs m e t).0 ≡ ok m'
      → IsCut classes vgs m m'
  unfolding delete_groups
  delete_groups-IsCut [] m e t h = subst (IsCut classes [] m) (ok-injective h) (IsCut-nil m)
  delete_groups-IsCut (vg ∷ vgs) m e t h =
      IsCut-step (specified classes vg) vg vgs m e t refl
        (λ t' n n' q. delete_groups-IsCut vgs n e t' q) h

  forget_step :
      (b : Bool) (vg : Text) (vgs : List Text) (m m' : Map ClassState)
      → specified classes vg ≡ b
      → IsCut classes vgs (if b then m else delete vg m) m'
      → IsCut classes (vg ∷ vgs) m m'
  forget_step true vg vgs m m' s c = IsCut-keep vg vgs m m' s c
  forget_step false vg vgs m m' s c = IsCut-delete vg vgs m m' s c

  forget_failed-IsCut :
      (vgs : List Text) (m : Map ClassState) → IsCut classes vgs m (forget_failed classes vgs m)
  unfolding forget_failed
  forget_failed-IsCut [] m = IsCut-nil m
  forget_failed-IsCut (vg ∷ vgs) m =
      forget_step (specified classes vg) vg vgs m _ refl (forget_failed-IsCut vgs _)

  -- The map holds exactly the entries of the specified groups that it held before.
  abbrev pub IsRestricted : Map ClassState → Map ClassState → Type 0
  IsRestricted m m' = (j : Text) → lookup j m' ≡ (if specified classes j then lookup j m else none)

  IsCut-IsRestricted :
      (m m' : Map ClassState) (e : Env) (t : Trace)
      → VisitsAll e
      → IsCut classes (e.order t (keys m)) m m'
      → IsRestricted m m'
  IsCut-IsRestricted m m' e t v c j = elim (Bool-cases (specified classes j)) [
    | inl s ↦ c.kept j s ∙ sym (rw s)
    | inr s ↦ elim (Bool-cases (has_key j m)) [
      | inl has ↦ c.gone j (v t (keys m) j (keys-Has j m has)) s ∙ sym (rw s)
      | inr not_there ↦ c.absent j (ground arith) ∙ sym (rw s)
    ]
  ]

-- Where Go visits every key, a check that ends well leaves in both maps exactly the entries of the
-- volume groups that the specification names, unchanged, also where a removal failed.
pub check_vg_if_delete-IsRestricted :
    (classes : List DeviceClass) (cs : Classes) (e : Env) (t : Trace) (cs' : Classes)
    → VisitsAll e
    → (check_vg_if_delete classes cs e t).0 ≡ ok cs'
    → IsRestricted classes cs.suc cs'.suc × IsRestricted classes cs.failed cs'.failed
unfolding check_vg_if_delete range
check_vg_if_delete-IsRestricted classes cs e t cs' v h =
    let vgs = e.order t (keys cs.suc) in
    let (suc, p, step) =
      bind-ok (delete_groups classes vgs cs.suc)
        (λ s. range cs.failed >>= λ fails.
          pure (record { suc = s; failed = forget_failed classes fails cs.failed }))
        e t h in
    let t' = (delete_groups classes vgs cs.suc e t).1 in
    let fails = e.order t' (keys cs.failed) in
    subst (λ c. IsRestricted classes cs.suc c.suc × IsRestricted classes cs.failed c.failed)
      (ok-injective (ap (λ r. r.0) (sym step) ∙ h))
      (
        IsCut-IsRestricted classes cs.suc suc e t v (delete_groups-IsCut classes vgs cs.suc e t p),
        IsCut-IsRestricted classes cs.failed (forget_failed classes fails cs.failed) e t' v
            (forget_failed-IsCut classes fails cs.failed),
      )
