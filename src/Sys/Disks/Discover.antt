-- ===== src/Sys/Disks/Discover.antt =====
-- What `DiscoverDevices` returns, also where a device cannot be read.
use topolvm_operator.Base.{
  ◌∙◌, sym, ap, ◌≡◌, ◌≢◌, refl, inl, inr, subst, Has, Bool, true, false, not, ◌&&◌, Option, none,
  some, List, [], ◌∷◌, ◌++◌, All, All-append, arith, Bool-cases,
}
use topolvm_operator.Base.Text.{Text, codes}
use topolvm_operator.Base.Maps.{Map, lookup}
use topolvm_operator.Env.{Env, Trace, Error, ok, ◌>>=◌, pure, Outcome, value, error, attempt}
use topolvm_operator.Env.Safe.{
  IsSafe, Returns, Returns-bind, Returns-pure, safe_rules, returning_rules,
}
use topolvm_operator.Sys.Device.Reads.{
  get_device_properties-IsSafe, get_disk_uuid-IsSafe, get_udev_info-IsSafe,
  list_devices_child-IsSafe,
}
use topolvm_operator.Env.Laws.{bind-ok, ok-injective, attempt-value}
use topolvm_operator.Sys.Device.{LocalDisk, list_devices, get_udev_info, get_device_properties}
use topolvm_operator.Sys.Disks.{
  supported_device_type, populate_typed, populate_device_info, populate_device_udev_info, has_child,
  probe_populated, probe, probe_all, discover_devices, fill_properties, fill_udev, udev_or,
  keep_unless, uuid_of, blank,
}

-- The device has a type that is supported, and the name that it was listed under.
pub record IsListed (d : Text) (disk : LocalDisk) : Type 0 where
  pub supported : supported_device_type disk.type ≡ true
  pub named : disk.name ≡ d

filled-IsListed :
    (d ty uuid : Text) (props : Map Text)
    → lookup (codes "TYPE") props ≡ some ty
    → supported_device_type ty ≡ true
    → IsListed d (fill_properties props (blank d uuid))
unfolding fill_properties blank
filled-IsListed d ty uuid props p s = record { supported = rw p s; named = refl }

populate_supported :
    (d ty : Text) (props : Map Text) (e : Env) (t : Trace)
    → supported_device_type ty ≡ true
    → populate_typed d props (some ty) e t
      ≡ (uuid_of d ty >>= λ uuid. pure (fill_properties props (blank d uuid))) e t
unfolding populate_typed
populate_supported d ty props e t s = rw s

populate_unsupported :
    (d ty : Text) (props : Map Text) (e : Env) (t : Trace) {disk : LocalDisk}
    → supported_device_type ty ≡ false
    → (populate_typed d props (some ty) e t).0 ≢ ok disk
unfolding populate_typed
populate_unsupported d ty props e t s h = ground arith

populate_untyped :
    (d : Text) (props : Map Text) (e : Env) (t : Trace) {disk : LocalDisk}
    → (populate_typed d props none e t).0 ≢ ok disk
unfolding populate_typed
populate_untyped d props e t h = cc

populate_typed-IsListed :
    (d : Text) (props : Map Text) (o : Option Text) (e : Env) (t : Trace) {disk : LocalDisk}
    → lookup (codes "TYPE") props ≡ o
    → (populate_typed d props o e t).0 ≡ ok disk
    → IsListed d disk
populate_typed-IsListed d props none e t p h = absurd (populate_untyped d props e t h)
populate_typed-IsListed d props (some ty) e t p h = elim (Bool-cases (supported_device_type ty)) [
  | inl s ↦
      let run = populate_supported d ty props e t s in
      let (uuid, found, step) =
        bind-ok (uuid_of d ty) (λ u. pure (fill_properties props (blank d u))) e t
          (ap (λ r. r.0) (sym run) ∙ h) in
      subst (IsListed d) (ok-injective (ap (λ r. r.0) (sym step ∙ sym run) ∙ h))
        (filled-IsListed d ty uuid props p s)
  | inr s ↦ absurd (populate_unsupported d ty props e t s h)
]

populate_device_info-IsListed :
    (d : Text) (e : Env) (t : Trace) {disk : LocalDisk}
    → (populate_device_info d e t).0 ≡ ok disk
    → IsListed d disk
unfolding populate_device_info
populate_device_info-IsListed d e t h =
    let (props, found, step) =
      bind-ok (get_device_properties d) (λ ps. populate_typed d ps (lookup (codes "TYPE") ps)) e t
        h in
    populate_typed-IsListed d props (lookup (codes "TYPE") props) e (get_device_properties d e t).1
      refl (ap (λ r. r.0) (sym step) ∙ h)

udev_or-IsListed :
    (d : Text) (disk : LocalDisk) (o : Outcome (Map Text))
    → IsListed d disk
    → IsListed d (udev_or disk o)
unfolding fill_udev
udev_or-IsListed d disk (value info) h = record { supported = h.supported; named = h.named }
udev_or-IsListed d disk (error x) h = h

udev-IsListed :
    (d : Text) (disk : LocalDisk) (e : Env) (t : Trace) {disk' : LocalDisk}
    → IsListed d disk
    → (populate_device_udev_info d disk e t).0 ≡ ok disk'
    → IsListed d disk'
unfolding populate_device_udev_info
udev-IsListed d disk e t l h =
    let (o, found, step) = bind-ok (attempt (get_udev_info d)) (λ i. pure (udev_or disk i)) e t h in
    subst (IsListed d) (ok-injective (ap (λ r. r.0) (sym step) ∙ h)) (udev_or-IsListed d disk o l)

keep_unless-All :
    (P : LocalDisk → Type 0) (b : Bool) (disk : LocalDisk) → P disk → All P (keep_unless b disk)
keep_unless-All P true disk h = tt
keep_unless-All P false disk h = (h, tt)

probe_populated-All :
    (d : Text) (lp : Bool) (disk : LocalDisk) (e : Env) (t : Trace) {ds : List LocalDisk}
    → IsListed d disk
    → (probe_populated d lp (value disk) e t).0 ≡ ok ds
    → All (IsListed d) ds
unfolding probe_populated
probe_populated-All d lp disk e t l h =
    let (disk', found, step) =
      bind-ok (populate_device_udev_info d disk)
        (λ x. has_child d x.type >>= λ child. pure (keep_unless (not lp && child) x)) e t h in
    let (child, found', step') =
      bind-ok (has_child d disk'.type) (λ c. pure (keep_unless (not lp && c) disk')) e
        (populate_device_udev_info d disk e t).1 (ap (λ r. r.0) (sym step) ∙ h) in
    subst (All (IsListed d)) (ok-injective (ap (λ r. r.0) (sym (step ∙ step')) ∙ h))
      (keep_unless-All (IsListed d) (not lp && child) disk' (udev-IsListed d disk e t l found))

probe_failed :
    (d : Text) (lp : Bool) (x : Error) (e : Env) (t : Trace) {ds : List LocalDisk}
    → (probe_populated d lp (error x) e t).0 ≡ ok ds
    → ds ≡ []
unfolding probe_populated
probe_failed d lp x e t h = ground arith

probed-All :
    (d : Text) (lp : Bool) (o : Outcome LocalDisk) (e : Env) (t t' : Trace) {ds : List LocalDisk}
    → (attempt (populate_device_info d) e t).0 ≡ ok o
    → (probe_populated d lp o e t').0 ≡ ok ds
    → All (IsListed d) ds
probed-All d lp (value disk) e t t' p h =
    probe_populated-All d lp disk e t'
      (populate_device_info-IsListed d e t (attempt-value (populate_device_info d) e t p)) h
probed-All d lp (error x) e t t' p h =
    subst (All (IsListed d)) (sym (probe_failed d lp x e t' h)) tt

probe-All :
    (d : Text) (lp : Bool) (e : Env) (t : Trace) {ds : List LocalDisk}
    → (probe d lp e t).0 ≡ ok ds
    → All (IsListed d) ds
unfolding probe
probe-All d lp e t h =
    let (o, found, step) =
      bind-ok (attempt (populate_device_info d)) (probe_populated d lp) e t h in
    probed-All d lp o e t (attempt (populate_device_info d) e t).1 found
      (ap (λ r. r.0) (sym step) ∙ h)

-- A supported device that was listed.
abbrev pub IsDevice : List Text → LocalDisk → Type 0
IsDevice devices disk = (supported_device_type disk.type ≡ true) × Has disk.name devices

IsListed-IsDevice :
    (d : Text) (devices : List Text) (ds : List LocalDisk)
    → Has d devices
    → All (IsListed d) ds
    → All (IsDevice devices) ds
IsListed-IsDevice d devices [] h l = tt
IsListed-IsDevice d devices (x ∷ ds) h (lx, l) = (
  (lx.supported, subst (λ n. Has n devices) (sym lx.named) h),
  IsListed-IsDevice d devices ds h l,
)

-- every element of the first list stands in the second
abbrev Within : List Text → List Text → Type 0
Within ds all = All (λ d. Has d all) ds

Within-cons : (x : Text) (ds all : List Text) → Within ds all → Within ds (x ∷ all)
Within-cons x [] all h = tt
Within-cons x (d ∷ ds) all (hd, h) = (inr hd, Within-cons x ds all h)

Within-refl : (ds : List Text) → Within ds ds
Within-refl [] = tt
Within-refl (d ∷ ds) = (inl refl, Within-cons d ds ds (Within-refl ds))

probe_all-All :
    (ds all : List Text) (lp : Bool) (e : Env) (t : Trace) {disks : List LocalDisk}
    → Within ds all
    → (probe_all ds lp e t).0 ≡ ok disks
    → All (IsDevice all) disks
unfolding probe_all
probe_all-All [] all lp e t w h = subst (All (IsDevice all)) (ok-injective h) tt
probe_all-All (d ∷ ds) all lp e t (wd, w) h =
    let (found, p, step) =
      bind-ok (probe d lp) (λ f. probe_all ds lp >>= λ rest. pure (f ++ rest)) e t h in
    let t' = (probe d lp e t).1 in
    let (rest, q, step') =
      bind-ok (probe_all ds lp) (λ r. pure (found ++ r)) e t' (ap (λ r. r.0) (sym step) ∙ h) in
    subst (All (IsDevice all)) (ok-injective (ap (λ r. r.0) (sym (step ∙ step')) ∙ h)) (
      All-append (IsDevice all) found rest (IsListed-IsDevice d all found wd (probe-All d lp e t p))
        (probe_all-All ds all lp e t' w q))

uuid_of-IsSafe : (d ty : Text) → IsSafe (uuid_of d ty)
unfolding uuid_of
uuid_of-IsSafe d ty = search (safe_rules, get_disk_uuid-IsSafe)

populate_typed-IsSafe :
    (d : Text) (props : Map Text) (o : Option Text) → IsSafe (populate_typed d props o)
unfolding populate_typed
populate_typed-IsSafe d props none = search safe_rules
populate_typed-IsSafe d props (some ty) = search (safe_rules, uuid_of-IsSafe)

populate_device_info-IsSafe : (d : Text) → IsSafe (populate_device_info d)
unfolding populate_device_info
populate_device_info-IsSafe d =
    search (safe_rules, get_device_properties-IsSafe, populate_typed-IsSafe)

udev-Returns : (d : Text) (disk : LocalDisk) → Returns (populate_device_udev_info d disk)
unfolding populate_device_udev_info
udev-Returns d disk = search (returning_rules, get_udev_info-IsSafe)

pub has_child-Returns : (d ty : Text) → Returns (has_child d ty)
unfolding has_child
has_child-Returns d ty = search (returning_rules, list_devices_child-IsSafe) depth 8

probe_populated-Returns :
    (d : Text) (lp : Bool) (o : Outcome LocalDisk) → Returns (probe_populated d lp o)
unfolding probe_populated
probe_populated-Returns d lp (value disk) =
    search (returning_rules, udev-Returns, has_child-Returns)
probe_populated-Returns d lp (error x) = search returning_rules

probe-Returns : (d : Text) (lp : Bool) → Returns (probe d lp)
unfolding probe
probe-Returns d lp = search (returning_rules, populate_device_info-IsSafe, probe_populated-Returns)

probe_all-Returns : (ds : List Text) (lp : Bool) → Returns (probe_all ds lp)
unfolding probe_all
probe_all-Returns [] lp = search returning_rules
probe_all-Returns (d ∷ ds) lp =
    Returns-bind (probe d lp) (λ f. probe_all ds lp >>= λ rest. pure (f ++ rest))
      (probe-Returns d lp)
      λ f.
        Returns-bind (probe_all ds lp) (λ rest. pure (f ++ rest)) (probe_all-Returns ds lp)
          λ rest. Returns-pure (f ++ rest)

discover-eq :
    (lp : Bool) (e : Env) (t : Trace) (devices : List Text)
    → (list_devices e t).0 ≡ ok devices
    → discover_devices lp e t ≡ probe_all devices lp e (list_devices e t).1
unfolding discover_devices
discover-eq lp e t devices h = ground arith

-- Where the devices can be listed, the discovery returns, whatever happens to the queries on each
-- device; and every disk that it returns has a supported type and the name of a listed device.
pub discover_devices-returns :
    (lp : Bool) (e : Env) (t : Trace) (devices : List Text)
    → (list_devices e t).0 ≡ ok devices
    → (disks : List LocalDisk) × ((discover_devices lp e t).0 ≡ ok disks)
      × All (IsDevice devices) disks
discover_devices-returns lp e t devices h =
    let run = discover-eq lp e t devices h in
    let (disks, p) = (probe_all-Returns devices lp).at e (list_devices e t).1 in
    (
      disks,
      ap (λ r. r.0) run ∙ p,
      probe_all-All devices devices lp e (list_devices e t).1 (Within-refl devices) p,
    )
