-- ===== src/PrepareVg/Provision/Covered.antt =====
-- What `provisionFirst` records of the classes.
use topolvm_operator.Base.{
  ◌≡◌, ◌∙◌, sym, refl, ap, Bool, true, false, List, [], ◌∷◌, All, ◌⊎◌, inl, inr, arith, Bool-cases,
  ◌≢◌, some, false≢true,
}
use topolvm_operator.Base.Text.{Text, same, same_iff}
use topolvm_operator.Base.Maps.{Map, lookup, insert, has_key, lookup-insert, lookup-insert_self}
use topolvm_operator.Api.{DeviceClass, LoopState, ClassState, class_ready}
use topolvm_operator.Env.{Env, Trace, ok, pure}
use topolvm_operator.Env.Laws.{bind-runs}
use topolvm_operator.Sys.Device.{LocalDisk}
use topolvm_operator.PrepareVg.{Classes}
use topolvm_operator.PrepareVg.Create.{Created, create_vg}
use topolvm_operator.PrepareVg.Create.Records.{IsRecorded, create_vg-IsRecorded}
use topolvm_operator.PrepareVg.Provision.{
  Progress, add_created, existing, first_class, first_classes,
}

-- Under the name of its group, there is a ready state among those that succeeded, or one that is not
-- ready among those that failed.
abbrev pub IsCovered : Classes → DeviceClass → Type 0
IsCovered cs c =
    (s : ClassState) × (((lookup c.vg_name cs.suc ≡ some s) × (s.state ≡ class_ready))
      ⊎ ((lookup c.vg_name cs.failed ≡ some s) × (s.state ≢ class_ready)))

-- Under this name each map holds what it held.
abbrev pub IsKept : Classes → Classes → Text → Type 0
IsKept cs cs' j = (lookup j cs'.suc ≡ lookup j cs.suc) × (lookup j cs'.failed ≡ lookup j cs.failed)

-- No class of the list has a group of this name.
abbrev pub IsOther : Text → List DeviceClass → Type 0
IsOther j cs = All (λ (c : DeviceClass). j ≢ c.vg_name) cs

recorded :
    (class : DeviceClass) (cs : Classes) (r : Created) (b : Bool)
    → r.success ≡ b
    → IsRecorded class.vg_name cs r
    → IsCovered r.classes class
recorded class cs r true p h =
    let (s, there, ready, same_failed) = h.on_success p in (s, inl (there, ready))
recorded class cs r false p h =
    let (s, there, ready, same_suc) = h.on_failure p in (s, inr (there, ready))

existing-IsCovered :
    (class : DeviceClass) (cs : Classes)
    → IsCovered (record cs { failed = insert class.vg_name (existing class) cs.failed }) class
unfolding existing
existing-IsCovered class cs =
    (existing class, inr (lookup-insert_self class.vg_name (existing class) cs.failed, λ p. cc))

existing-IsKept :
    (class : DeviceClass) (cs : Classes) (j : Text)
    → j ≢ class.vg_name
    → IsKept cs (record cs { failed = insert class.vg_name (existing class) cs.failed }) j
existing-IsKept class cs j n = (
  refl,
  ground (
    arith,
    lookup-insert class.vg_name j (existing class) cs.failed,
    same_iff class.vg_name j,
    n,
  ),
)

-- A class that was covered still is, after a step for a class: the states of another group are kept.
IsCovered-step :
    (c d : DeviceClass) (cs cs' : Classes)
    → ((j : Text) → j ≢ d.vg_name → IsKept cs cs' j)
    → IsCovered cs' d
    → IsCovered cs c
    → IsCovered cs' c
IsCovered-step c d cs cs' kept new old = elim (Bool-cases (same c.vg_name d.vg_name)) [
  | inl q ↦ let (s, h) = new in let p = (same_iff c.vg_name d.vg_name).0 q in (s, rw p h)
  | inr q ↦
      let (s, h) = old in
      let (ks, kf) =
        kept c.vg_name (λ p. false≢true (sym q ∙ (same_iff c.vg_name d.vg_name).1 p)) in
      (s, rw (ks, kf) h)
]

module _ (loop_map : Map LoopState) (disks : Map LocalDisk) (vgs : Map Text) where
  first_step :
      (b : Bool) (class : DeviceClass) (p : Progress) (e : Env) (t : Trace)
      → has_key class.vg_name vgs ≡ b
      → (p' : Progress) × ((first_class loop_map disks vgs class p e t).0 ≡ ok p')
        × IsCovered p'.classes class
        × ((j : Text) → j ≢ class.vg_name → IsKept p.classes p'.classes j)
  unfolding first_class
  first_step true class p e t h = (
    record p {
      classes = record p.classes {
        failed = insert class.vg_name (existing class) p.classes.failed;
      };
    },
    rw h,
    existing-IsCovered class p.classes,
    existing-IsKept class p.classes,
  )
  first_step false class p e t h =
      let (r, returned, is_recorded) = create_vg-IsRecorded loop_map disks class p.classes e t in
      (
        add_created p r,
        ground (
          arith,
          h,
          ap (λ x. x.0)
              (bind-runs (create_vg loop_map disks class p.classes) (λ c. pure (add_created p c)) e
                t returned),
        ),
        recorded class p.classes r r.success refl is_recorded,
        is_recorded.others,
      )

  covered :
      (cs : List DeviceClass) (p : Progress) (e : Env) (t : Trace)
      → (p' : Progress) × ((first_classes loop_map disks vgs cs p e t).0 ≡ ok p')
        × All (IsCovered p'.classes) cs
        × ((j : Text) → IsOther j cs → IsKept p.classes p'.classes j)
        × ((c : DeviceClass) → IsCovered p.classes c → IsCovered p'.classes c)
  unfolding first_classes
  covered [] p e t = (p, refl, tt, (λ j h. (refl, refl)), (λ c h. h))
  covered (c ∷ cs) p e t =
      let (p1, r1, new, kept) = first_step (has_key c.vg_name vgs) c p e t refl in
      let run =
        bind-runs (first_class loop_map disks vgs c p) (λ q. first_classes loop_map disks vgs cs q)
          e t r1 in
      let (p2, r2, rest, others, still) =
        covered cs p1 e (first_class loop_map disks vgs c p e t).1 in
      (
        p2,
        ap (λ x. x.0) run ∙ r2,
        (still c new, rest),
        (λ j h. let (ks, kf) = others j h.1 in let (ls, lf) = kept j h.0 in (ks ∙ ls, kf ∙ lf)),
        (λ d h. still d (IsCovered-step d c p.classes p1.classes kept new h)),
      )

  -- The loop of the first provisioning always returns. In the end there is, under the name of the
  -- group of every class of the node, a ready state among the successes or one that is not ready
  -- among the failures, and under the name of any other group both maps hold what they held before.
  pub first_classes-IsCovered :
      (cs : List DeviceClass) (p : Progress) (e : Env) (t : Trace)
      → (p' : Progress) × ((first_classes loop_map disks vgs cs p e t).0 ≡ ok p')
        × All (IsCovered p'.classes) cs
        × ((j : Text) → IsOther j cs → IsKept p.classes p'.classes j)
  first_classes-IsCovered cs p e t =
      let (p', r, all, others, still) = covered cs p e t in (p', r, all, others)
