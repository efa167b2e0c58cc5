-- ===== src/Discover/Classes.antt =====
-- What `checkDeviceClass` makes of the states of the classes, and what it runs.
use topolvm_operator.Base.{
  ◌≡◌, ◌∙◌, sym, refl, ap, subst, true, false, List, [], ◌∷◌, map, All, arith, Bool-cases, inl, inr,
}
use topolvm_operator.Base.Text.{Text}
use topolvm_operator.Base.Maps.{Map, has_key}
use topolvm_operator.Api.{DeviceState, ClassState, class_ready, device_offline}
use topolvm_operator.Env.{Env, Trace, ok, pure, ◌>>=◌}
use topolvm_operator.Env.Laws.{bind-ok, ok-injective}
use topolvm_operator.Sys.Lvm.{get_physical_volume}
use topolvm_operator.Discover.{mark_device, all_there, mark_class, mark_classes}

abbrev pub IsThere : Map Text → DeviceState → Type 0
IsThere pvs d = has_key d.name pvs ≡ true

-- A device that is not among the volumes is marked as offline, and all else is as it was.
pub record IsMarked (pvs : Map Text) (d d' : DeviceState) : Type 0 where
  pub same_name : d'.name ≡ d.name
  pub same_message : d'.message ≡ d.message
  pub present : has_key d.name pvs ≡ true → d'.state ≡ d.state
  pub missing : has_key d.name pvs ≡ false → d'.state ≡ device_offline

-- One state for each device, in the same order.
abbrev pub AllMarked : Map Text → List DeviceState → List DeviceState → Type 0
AllMarked pvs [] [] = Unit
AllMarked pvs (d ∷ ds) (d' ∷ ds') = IsMarked pvs d d' × AllMarked pvs ds ds'
AllMarked pvs _ _ = ⊥

-- The class against the volumes that its group is reported to have after a trace: it is ready just
-- where each of its devices is among them, and its devices are marked.
pub record IsChecked (e : Env) (t : Trace) (c c' : ClassState) : Type 0 where
  pub pvs : Map Text
  pub report : (get_physical_volume c.vg_name e t).0 ≡ ok pvs
  pub same_name : c'.name ≡ c.name
  pub same_group : c'.vg_name ≡ c.vg_name
  pub same_message : c'.message ≡ c.message
  pub ready : c'.state ≡ class_ready → All (IsThere pvs) c.device_states
  pub complete : All (IsThere pvs) c.device_states → c'.state ≡ class_ready
  pub devices : AllMarked pvs c.device_states c'.device_states

-- One state for each class, in the same order, by the reports on their groups one after the other.
abbrev pub AllChecked : Env → Trace → List ClassState → List ClassState → Type 0
AllChecked e t [] [] = Unit
AllChecked e t (c ∷ cs) (c' ∷ cs') =
    IsChecked e t c c' × AllChecked e (get_physical_volume c.vg_name e t).1 cs cs'
AllChecked e t _ _ = ⊥

all_there-All :
    (pvs : Map Text) (ds : List DeviceState) → all_there pvs ds ≡ true → All (IsThere pvs) ds
unfolding all_there
all_there-All pvs [] h = tt
all_there-All pvs (d ∷ ds) h = elim (Bool-cases (has_key d.name pvs)) [
  | inl e ↦ (e, all_there-All pvs ds (ground (arith, h, e)))
  | inr e ↦ absurd (ground (arith, h, e))
]

All-all_there :
    (pvs : Map Text) (ds : List DeviceState) → All (IsThere pvs) ds → all_there pvs ds ≡ true
unfolding all_there
All-all_there pvs [] a = refl
All-all_there pvs (d ∷ ds) (h, a) = rw h (All-all_there pvs ds a)

mark_device-IsMarked : (pvs : Map Text) (d : DeviceState) → IsMarked pvs d (mark_device pvs d)
unfolding mark_device
mark_device-IsMarked pvs d = elim (Bool-cases (has_key d.name pvs)) [
  | inl q ↦
      rw q
        (record { same_name = refl; same_message = refl; present = λ p. refl; missing = λ p. cc })
  | inr q ↦
      rw q
        (record { same_name = refl; same_message = refl; present = λ p. cc; missing = λ p. refl })
]

marked : (pvs : Map Text) (ds : List DeviceState) → AllMarked pvs ds (map (mark_device pvs) ds)
marked pvs [] = tt
marked pvs (d ∷ ds) = (mark_device-IsMarked pvs d, marked pvs ds)

mark_class-IsChecked :
    (pvs : Map Text) (c : ClassState) (e : Env) (t : Trace)
    → (get_physical_volume c.vg_name e t).0 ≡ ok pvs
    → IsChecked e t c (mark_class pvs c)
unfolding mark_class
mark_class-IsChecked pvs c e t h = record {
  pvs = pvs;
  report = h;
  same_name = refl;
  same_group = refl;
  same_message = refl;
  ready = λ p. elim (Bool-cases (all_there pvs c.device_states)) [
    | inl q ↦ all_there-All pvs c.device_states q
    | inr q ↦ absurd (ground (arith, p, q))
  ];
  complete = λ a. rw (All-all_there pvs c.device_states a);
  devices = marked pvs c.device_states;
}

-- A check that ends well asks for a report on the group of each class that was ready, one after the
-- other, and has one state for each class, in the same order: it is ready just where all its devices
-- are among the volumes of its report, the devices that are not are marked as offline, and all else
-- of the class and of its devices is as it was.
pub mark_classes-AllChecked :
    (cs : List ClassState) (e : Env) (t : Trace) (cs' : List ClassState)
    → (mark_classes cs e t).0 ≡ ok cs'
    → AllChecked e t cs cs'
unfolding mark_classes
mark_classes-AllChecked [] e t cs' h = subst (AllChecked e t []) (ok-injective h) tt
mark_classes-AllChecked (c ∷ cs) e t cs' h =
    let (pvs, p, q) =
      bind-ok (get_physical_volume c.vg_name)
        (λ pvs. mark_classes cs >>= λ rest. pure (mark_class pvs c ∷ rest)) e t h in
    let t' = (get_physical_volume c.vg_name e t).1 in
    let (rest, r, s) =
      bind-ok (mark_classes cs) (λ rest. pure (mark_class pvs c ∷ rest)) e t'
        (ap (λ x. x.0) (sym q) ∙ h) in
    subst (AllChecked e t (c ∷ cs)) (ok-injective (ap (λ x. x.0) (sym s ∙ sym q) ∙ h))
      (mark_class-IsChecked pvs c e t p, mark_classes-AllChecked cs e t' rest r)
