-- ===== src/PrepareVg/Create/Checks.antt =====
-- The loop over the disks of a class, and when a volume group is made at all.
use topolvm_operator.Base.{
  ◌∙◌, sym, ap, subst, ◌≡◌, ◌≢◌, refl, true, false, Option, none, some, List, [], ◌∷◌, map, arith,
  All, Bool-cases, inl, inr,
}
use topolvm_operator.Base.Text.{Text, same_iff}
use topolvm_operator.Base.Maps.{Map, lookup, has_key, lookup-insert_self}
use topolvm_operator.Api.{Disk, DeviceClass, LoopState, ClassState}
use topolvm_operator.Env.{Env, Trace, ok}
use topolvm_operator.Env.Laws.{attempt-trace}
use topolvm_operator.Sys.Device.{LocalDisk}
use topolvm_operator.Sys.Lvm.{create_volume_group}
use topolvm_operator.PrepareVg.{Classes, resolve, loop, get_device_name}
use topolvm_operator.PrepareVg.Create.{
  Checked, check_disks, checked_disk, add_missing, Created, create_checked, create_vg, offline,
}

module _ (loop_map : Map LoopState) (disks : Map LocalDisk) where
  -- Under the name that it goes by, the disk is among the free disks. A loop device of the operator
  -- that has no name yet is passed over.
  abbrev pub IsFree : Disk → Type 0
  IsFree d = (d' : Disk) → resolve loop_map d ≡ some d' → has_key d'.name disks ≡ true

  free_step :
      (d : Disk) (o : Option Disk) (rest : Checked)
      → resolve loop_map d ≡ o
      → rest.missing ≡ []
      → IsFree d
      → (checked_disk loop_map disks d o rest).missing ≡ []
  unfolding checked_disk add_missing
  free_step d none rest p r h = r
  free_step d (some d') rest p r h = rw (h d' p) r

  pub check_disks-free :
      (ds : List Disk) → All IsFree ds → (check_disks loop_map disks ds).missing ≡ []
  unfolding check_disks
  check_disks-free [] h = refl
  check_disks-free (d ∷ ds) (hd, h) =
      free_step d (resolve loop_map d) (check_disks loop_map disks ds) refl (check_disks-free ds h)
        hd

  missing_step :
      (d : Disk) (o : Option Disk) (rest : Checked)
      → resolve loop_map d ≡ o
      → (checked_disk loop_map disks d o rest).missing ≡ []
      → IsFree d × (rest.missing ≡ [])
  unfolding checked_disk add_missing
  missing_step d none rest p h = ((λ d' q. absurd (cc)), h)
  missing_step d (some d') rest p h = elim (Bool-cases (has_key d'.name disks)) [
    | inl free ↦ ((λ d'' q. cc), ground arith)
    | inr not_free ↦ absurd (ground arith)
  ]

  pub IsFree-check_disks :
      (ds : List Disk) → (check_disks loop_map disks ds).missing ≡ [] → All IsFree ds
  unfolding check_disks
  IsFree-check_disks [] h = tt
  IsFree-check_disks (d ∷ ds) h =
      let (free, rest) =
        missing_step d (resolve loop_map d) (check_disks loop_map disks ds) refl h in
      (free, IsFree-check_disks ds rest)

module _ (loop_map : Map LoopState) (disks : Map LocalDisk) (class : DeviceClass)
    (cs : Classes) where
  -- The class under the names that its disks go by.
  abbrev pub renamed : DeviceClass
  renamed = record class { device = (check_disks loop_map disks class.device).devices }

  refused :
      (names : List Text) (e : Env) (t : Trace)
      → names ≢ []
      → (r : Created) × (s : ClassState) × (create_checked renamed cs names e t ≡ (ok r, t))
        × (r.success ≡ false)
        × (r.classes.suc ≡ cs.suc)
        × (lookup class.vg_name r.classes.failed ≡ some s)
        × (s.device_states ≡ map offline names)
  unfolding create_checked
  refused [] e t h = absurd (h refl)
  refused (n ∷ names) e t h =
      (_, _, refl, refl, refl, lookup-insert_self class.vg_name _ cs.failed, refl)

  -- Where some disk of the class is not free, no group is made and no command is run. The class is
  -- recorded as failed, with at least one disk marked as offline, and no success is recorded.
  pub create_vg-refuses :
      (e : Env) (t : Trace)
      → ¬ All (IsFree loop_map disks) class.device
      → (r : Created) × (s : ClassState) × (names : List Text) × (create_vg loop_map disks class cs
            e t
          ≡ (ok r, t))
        × (r.success ≡ false)
        × (r.classes.suc ≡ cs.suc)
        × (lookup class.vg_name r.classes.failed ≡ some s)
        × (s.device_states ≡ map offline names)
        × (names ≢ [])
  unfolding create_vg
  create_vg-refuses e t h =
      let names = (check_disks loop_map disks class.device).missing in
      let not_nil = λ (p : names ≡ []). h (IsFree-check_disks loop_map disks class.device p) in
      let (r, s, run, failure, kept, at_name, states) = refused names e t not_nil in
      (r, s, names, run, failure, kept, at_name, states, not_nil)

  runs :
      (names : List Text) (e : Env) (t : Trace)
      → names ≡ []
      → (create_checked renamed cs names e t).1
        ≡ (create_volume_group renamed.device class.vg_name e t).1
  unfolding create_checked
  runs [] e t h =
      ground (arith, attempt-trace (create_volume_group renamed.device class.vg_name) e t)
  runs (n ∷ names) e t h = cc

  -- Where every disk is free, exactly the commands of `CreateVolumeGroup` are run, on the names that
  -- the disks go by.
  pub create_vg-runs :
      (e : Env) (t : Trace)
      → All (IsFree loop_map disks) class.device
      → (create_vg loop_map disks class cs e t).1
        ≡ (create_volume_group renamed.device class.vg_name e t).1
  unfolding create_vg
  create_vg-runs e t h =
      runs (check_disks loop_map disks class.device).missing e t
        (check_disks-free loop_map disks class.device h)

resolve-unnamed :
    (loop_map : Map LoopState) (d : Disk)
    → d.type ≡ loop
    → d.auto ≡ true
    → get_device_name loop_map d.name ≡ []
    → resolve loop_map d ≡ none
unfolding resolve
resolve-unnamed loop_map d type auto name =
    ground
      (arith, type, auto, name, same_iff d.type loop, same_iff (get_device_name loop_map d.name) [])

unnamed_devices :
    (loop_map : Map LoopState) (disks : Map LocalDisk) (d : Disk)
    → resolve loop_map d ≡ none
    → check_disks loop_map disks (d ∷ []) ≡ record { devices = d ∷ []; missing = [] }
unfolding check_disks checked_disk
unnamed_devices loop_map disks d h = rw h

-- Where the only disk of a class is a loop device of the operator that has no device, as after a
-- failed `losetup`, it is not reported as missing: whatever disks are free, the commands are run on
-- the name that it has in the specification.
pub create_vg-unnamed_loop :
    (loop_map : Map LoopState) (disks : Map LocalDisk) (class : DeviceClass) (cs : Classes)
    (d : Disk) (e : Env) (t : Trace)
    → class.device ≡ d ∷ []
    → d.type ≡ loop
    → d.auto ≡ true
    → get_device_name loop_map d.name ≡ []
    → (create_vg loop_map disks class cs e t).1 ≡ (create_volume_group (d ∷ []) class.vg_name e t).1
create_vg-unnamed_loop loop_map disks class cs d e t p type auto name =
    let unnamed = resolve-unnamed loop_map d type auto name in
    let at_disks = ap (check_disks loop_map disks) p ∙ unnamed_devices loop_map disks d unnamed in
    create_vg-runs loop_map disks class cs e t
      (subst (All (IsFree loop_map disks)) (sym p) ((λ d' q. cc), tt))
    ∙ ap (λ (c : Checked). (create_volume_group c.devices class.vg_name e t).1) at_disks
