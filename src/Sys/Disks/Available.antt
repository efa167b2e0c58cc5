-- ===== src/Sys/Disks/Available.antt =====
-- Which disks `GetAvailableDevices` lists.
use topolvm_operator.Base.{
  ◌≤◌, ◌∙◌, sym, ap, ◌≡◌, ◌≢◌, refl, ◌⊎◌, inl, inr, false, Option, none, some, List, [], ◌∷◌, ◌++◌,
  Has, arith, Bool-cases, Option-cases,
}
use topolvm_operator.Base.Text.{Text, same, same_iff}
use topolvm_operator.Base.Maps.{Map, lookup, insert, lookup-insert, lookup-insert_self}
use topolvm_operator.Env.{Env, Trace, ok, pure}
use topolvm_operator.Env.Laws.{bind-ok}
use topolvm_operator.Sys.Device.{LocalDisk}
use topolvm_operator.Sys.Disks.{
  min_size, disk_prefix, unusable, add_available, discover_devices, get_available_devices,
}

-- Big enough, with no file system and no mount point.
pub record IsUsable (d : LocalDisk) : Type 0 where
  pub big : min_size ≤ d.size
  pub unformatted : d.filesystem ≡ []
  pub unmounted : d.mount_point ≡ []

pub IsUsable-none : (d : LocalDisk) → unusable d ≡ none → IsUsable d
unfolding unusable
IsUsable-none d h = record {
  big = ground arith;
  unformatted = ground (arith, same_iff d.filesystem []);
  unmounted = ground (arith, same_iff d.mount_point []);
}

pub none-IsUsable : (d : LocalDisk) → IsUsable d → unusable d ≡ none
unfolding unusable
none-IsUsable d u =
    ground (
      arith,
      u.big,
      u.unformatted,
      u.unmounted,
      same_iff d.filesystem [],
      same_iff d.mount_point [],
    )

abbrev one : LocalDisk → Option Text → Map LocalDisk → Map LocalDisk
one d none m = insert (disk_prefix ++ d.name) d m
one d (some text) m = m

add_available_step :
    (d : LocalDisk) (ds : List LocalDisk) (m : Map LocalDisk)
    → add_available (d ∷ ds) m ≡ add_available ds (one d (unusable d) m)
unfolding add_available
add_available_step d ds m = elim (Option-cases (unusable d)) [ inl e ↦ rw e | inr (text, e) ↦ rw e ]

-- A disk of the list that is usable, under its name in the map.
abbrev Listed : Text → LocalDisk → List LocalDisk → Type 0
Listed k d ds = Has d ds × (unusable d ≡ none) × (k ≡ disk_prefix ++ d.name)

one_sound :
    (x d : LocalDisk) (k : Text) (o : Option Text) (m : Map LocalDisk)
    → unusable x ≡ o
    → lookup k (one x o m) ≡ some d
    → (lookup k m ≡ some d) ⊎ Listed k d (x ∷ [])
one_sound x d k none m e h =
    ground (arith, lookup-insert (disk_prefix ++ x.name) k x m, same_iff (disk_prefix ++ x.name) k)
one_sound x d k (some text) m e h = inl h

add_available_sound :
    (ds : List LocalDisk) (m : Map LocalDisk) (k : Text) (d : LocalDisk)
    → lookup k (add_available ds m) ≡ some d
    → (lookup k m ≡ some d) ⊎ Listed k d ds
add_available_sound [] m k d h = inl (unfold add_available in h)
add_available_sound (x ∷ ds) m k d h =
    elim (add_available_sound ds (one x (unusable x) m) k d
      (ap (lookup k) (sym (add_available_step x ds m)) ∙ h)) [
        | inr (has, usable, key) ↦ inr (inr has, usable, key)
        | inl old ↦ elim (one_sound x d k (unusable x) m refl old) [
          | inl older ↦ inl older
          | inr (has, usable, key) ↦ ground arith
        ]
      ]

one_keeps :
    (x d : LocalDisk) (k : Text) (o : Option Text) (m : Map LocalDisk)
    → lookup k m ≡ some d
    → (d' : LocalDisk) × (lookup k (one x o m) ≡ some d')
one_keeps x d k none m h = elim (Bool-cases (same (disk_prefix ++ x.name) k)) [
  | inl e ↦ (x, lookup-insert (disk_prefix ++ x.name) k x m ∙ rw e)
  | inr e ↦ (d, lookup-insert (disk_prefix ++ x.name) k x m ∙ rw e h)
]
one_keeps x d k (some text) m h = (d, h)

add_available_keeps :
    (ds : List LocalDisk) (m : Map LocalDisk) (k : Text) (d : LocalDisk)
    → lookup k m ≡ some d
    → (d' : LocalDisk) × (lookup k (add_available ds m) ≡ some d')
add_available_keeps [] m k d h = (d, unfold add_available in h)
add_available_keeps (x ∷ ds) m k d h =
    let (d', h') = one_keeps x d k (unusable x) m h in
    let (d'', h'') = add_available_keeps ds (one x (unusable x) m) k d' h' in
    (d'', ap (lookup k) (add_available_step x ds m) ∙ h'')

add_available_complete :
    (ds : List LocalDisk) (m : Map LocalDisk) (d : LocalDisk)
    → Has d ds
    → unusable d ≡ none
    → (d' : LocalDisk) × (lookup (disk_prefix ++ d.name) (add_available ds m) ≡ some d')
add_available_complete [] m d h u = absurd h
add_available_complete (x ∷ ds) m d (inl e) u =
    let k = disk_prefix ++ d.name in
    let here : lookup k (one x (unusable x) m) ≡ some d = rw (e, u) (lookup-insert_self k d m) in
    let (d', h) = add_available_keeps ds (one x (unusable x) m) k d here in
    (d', ap (lookup k) (add_available_step x ds m) ∙ h)
add_available_complete (x ∷ ds) m d (inr r) u =
    let k = disk_prefix ++ d.name in
    let (d', h) = add_available_complete ds (one x (unusable x) m) d r u in
    (d', ap (lookup k) (add_available_step x ds m) ∙ h)

no_key : (k : Text) (d : LocalDisk) → lookup {V = LocalDisk} k [] ≢ some d
unfolding lookup
no_key k d q = cc

get_available_devices-eq :
    (e : Env) (t : Trace) {m : Map LocalDisk}
    → (get_available_devices e t).0 ≡ ok m
    → (ds : List LocalDisk) × ((discover_devices false e t).0 ≡ ok ds) × (m ≡ add_available ds [])
unfolding get_available_devices
get_available_devices-eq e t h =
    let (ds, found, step) =
      bind-ok (discover_devices false) (λ disks. pure (add_available disks [])) e t h in
    (ds, found, ground (arith, h, ap (λ r. r.0) step))

-- A listing that ends well holds, under "/dev/" and its name, only disks that were discovered and
-- are usable; and every usable disk that was discovered has a disk of its name in the listing.
pub get_available_devices-exact :
    (e : Env) (t : Trace) (m : Map LocalDisk)
    → (get_available_devices e t).0 ≡ ok m
    → (ds : List LocalDisk) × ((discover_devices false e t).0 ≡ ok ds)
      × ((k : Text) (d : LocalDisk)
          → lookup k m ≡ some d
          → Has d ds × IsUsable d × (k ≡ disk_prefix ++ d.name))
      × ((d : LocalDisk)
          → Has d ds
          → IsUsable d
          → (d' : LocalDisk) × (lookup (disk_prefix ++ d.name) m ≡ some d'))
get_available_devices-exact e t m h =
    let (ds, found, p) = get_available_devices-eq e t h in
    (
      ds,
      found,
      λ k d at_k. elim (add_available_sound ds [] k d (ap (lookup k) (sym p) ∙ at_k)) [
        | inl none_yet ↦ absurd (no_key k d none_yet)
        | inr (has, usable, key) ↦ (has, IsUsable-none d usable, key)
      ],
      λ d has usable.
          let (d', q) = add_available_complete ds [] d has (none-IsUsable d usable) in
          (d', ap (lookup (disk_prefix ++ d.name)) p ∙ q),
    )
