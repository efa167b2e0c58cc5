-- ===== src/Sys/Disks/All.antt =====
-- What `GetAllDevices` lists of each disk.
use topolvm_operator.Base.{
  ◌∙◌, sym, ap, ap₂, ◌≡◌, ◌≢◌, refl, Bool, true, false, Option, none, some, List, [], ◌∷◌, map,
  arith, All, subst,
}
use topolvm_operator.Base.Text.{Text, codes}
use topolvm_operator.Env.{Env, Trace, ok, ◌>>=◌, pure}
use topolvm_operator.Env.Laws.{bind-ok, ok-injective}
use topolvm_operator.Sys.Device.{LocalDisk, LocalDiskAppendInfo}
use topolvm_operator.Sys.Disks.{
  unusable, has_child, discover_devices, child_info, info_of, info_all, get_all_devices,
}
use topolvm_operator.Sys.Disks.Available.{IsUsable, IsUsable-none, none-IsUsable}

-- Available only if usable; a usable disk that is refused has a child; the others tell a reason.
pub record IsFair (i : LocalDiskAppendInfo) : Type 0 where
  pub sound : i.available ≡ true → IsUsable i.local_disk
  pub refused : i.available ≡ false → i.message ≢ []
  pub child : IsUsable i.local_disk → i.available ≡ false → i.message ≡ codes "has child"

unusable-ne-nil : (d : LocalDisk) (text : Text) → unusable d ≡ some text → text ≢ []
unfolding unusable
unusable-ne-nil d text h p = ground arith

info_of-IsFair :
    (d : LocalDisk) (o : Option Text) (e : Env) (t : Trace) {i : LocalDiskAppendInfo}
    → unusable d ≡ o
    → (info_of d o e t).0 ≡ ok i
    → (i.local_disk ≡ d) × IsFair i
unfolding info_of
info_of-IsFair d none e t p h =
    let (c, found, step) =
      bind-ok (has_child d.kernel_name d.type) (λ c. pure (child_info d c)) e t h in
    subst (λ i. (i.local_disk ≡ d) × IsFair i) (ok-injective (ap (λ r. r.0) (sym step) ∙ h))
      (told c)
  where
    told : (c : Bool) → ((child_info d c).local_disk ≡ d) × IsFair (child_info d c)
    told true = (refl, record { sound = λ q. cc; refused = λ q r. cc; child = λ u q. refl })
    told false =
        (refl, record { sound = λ q. IsUsable-none d p; refused = λ q. cc; child = λ u q. cc })
info_of-IsFair d (some text) e t p h =
    subst (λ i. (i.local_disk ≡ d) × IsFair i) (ok-injective h)
      (
        refl,
        record {
          sound = λ q. cc;
          refused = λ q. unusable-ne-nil d text p;
          child = λ u q. cc (p, none-IsUsable d u);
        },
      )

info_all-IsFair :
    (ds : List LocalDisk) (e : Env) (t : Trace) {is : List LocalDiskAppendInfo}
    → (info_all ds e t).0 ≡ ok is
    → (map (λ (i : LocalDiskAppendInfo). i.local_disk) is ≡ ds) × All IsFair is
unfolding info_all
info_all-IsFair [] e t h =
    subst (λ is. (map (λ (i : LocalDiskAppendInfo). i.local_disk) is ≡ []) × All IsFair is)
      (ok-injective h) (refl, tt)
info_all-IsFair (d ∷ ds) e t h =
    let (i, p, step) =
      bind-ok (info_of d (unusable d)) (λ i. info_all ds >>= λ rest. pure (i ∷ rest)) e t h in
    let t' = (info_of d (unusable d) e t).1 in
    let (rest, q, step') =
      bind-ok (info_all ds) (λ r. pure (i ∷ r)) e t' (ap (λ r. r.0) (sym step) ∙ h) in
    let (at_head, fair) = info_of-IsFair d (unusable d) e t refl p in
    let (at_rest, all) = info_all-IsFair ds e t' q in
    subst (λ is. (map (λ (i : LocalDiskAppendInfo). i.local_disk) is ≡ d ∷ ds) × All IsFair is)
      (ok-injective (ap (λ r. r.0) (sym (step ∙ step')) ∙ h))
      (ap₂ (λ x xs. x ∷ xs) at_head at_rest, (fair, all))

-- A listing of all devices that ends well has one entry for each disk that was discovered, in the
-- same order. An entry that is available is of a usable disk; any other gives a reason, and for a
-- usable disk the reason is that it has a child.
pub get_all_devices-IsFair :
    (e : Env) (t : Trace) (is : List LocalDiskAppendInfo)
    → (get_all_devices e t).0 ≡ ok is
    → (ds : List LocalDisk) × ((discover_devices true e t).0 ≡ ok ds)
      × (map (λ (i : LocalDiskAppendInfo). i.local_disk) is ≡ ds)
      × All IsFair is
unfolding get_all_devices
get_all_devices-IsFair e t is h =
    let (ds, p, step) = bind-ok (discover_devices true) info_all e t h in
    let (same_disks, fair) =
      info_all-IsFair ds e (discover_devices true e t).1 (ap (λ r. r.0) (sym step) ∙ h) in
    (ds, p, same_disks, fair)
