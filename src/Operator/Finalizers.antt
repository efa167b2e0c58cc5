-- ===== src/Operator/Finalizers.antt =====
-- pkg/operator/controller/finalizer.go. `GetControllerObjectOwnerReference` of owner.go is here too.
pub mod Removed
use topolvm_operator.Base.{
  ℕ, zero, suc, ◌-◌, Bool, true, false, length, Option, none, some, List, [], ◌∷◌, ◌++◌, any,
  if◌then◌else◌,
}
use mathlib.Core.Option
use topolvm_operator.Base.Text.{Text, codes, same}
use topolvm_operator.Go.Strings.{to_lower}
use topolvm_operator.Api.{TopolvmCluster}
use topolvm_operator.Kube.{Owner}
use topolvm_operator.Env.{M, Result, ok, err, panic, pure, crash, ◌>>=◌, ◌>>◌, wrap}
use topolvm_operator.Client.{put_cluster}

-- `buildFinalizerName`
unfoldable pub build_finalizer_name : Text → Text
build_finalizer_name kind = to_lower kind ++ codes ".topolvm.cybozu.com"

-- `contains`
unfoldable pub contains : List Text → Text → Bool
contains list s = any (λ v. same v s) list

-- `append(list[:i], list[i+1:]...)` moves the live elements behind `i` one place to the front in their
-- array, and the last of them stays where it was too: here for those behind the first.
unfoldable pub shift : ℕ → List Text → List Text
shift (suc (suc m)) (x ∷ y ∷ l) = y ∷ shift (suc m) (y ∷ l)
shift m l = l

-- The element that moved to the place of a removed one stays, if there was one.
unfoldable pub after_removal : List Text → ℕ → Option (List Text) → Option (List Text)
after_removal (y ∷ rest) (suc m) (some l) = some (y ∷ l)
after_removal rest m r = r

-- The loop of `remove` goes over the array that the slice had at first, which changes under it: `rest`
-- is the part still to be visited, and `live` the number of its elements that are still in `list`. It
-- gives those of them that stay, and `none` where `list[i+1:]` panics.
unfoldable pub remove_from : ℕ → List Text → ℕ → Text → Option (List Text)
remove_from zero rest live s = some []
remove_from (suc n) [] live s = some []
remove_from (suc n) (x ∷ rest) zero s = elim (same x s) [
  | true ↦ none
  | false ↦ remove_from n rest zero s
]
remove_from (suc n) (x ∷ rest) (suc m) s = elim (same x s) [
  | true ↦ after_removal rest m (remove_from n (shift m rest) (m - 1) s)
  | false ↦ Option.map (λ l. x ∷ l) (remove_from n rest m s)
]

-- `remove`
unfoldable pub remove : List Text → Text → Option (List Text)
unfolding remove_from
remove list s = remove_from (length list) list (length list) s

-- `AddFinalizerIfNotPresent`
unfoldable pub add_finalizer_if_not_present : TopolvmCluster → M TopolvmCluster
unfolding build_finalizer_name
add_finalizer_if_not_present c =
    let name = build_finalizer_name c.kind in
    if contains c.finalizers name
    then pure c
    else wrap (codes "failed to add finalizer")
        (put_cluster (record c { finalizers = c.finalizers ++ name ∷ [] }))

-- `RemoveFinalizer`
unfoldable pub remove_finalizer : TopolvmCluster → M (Unit {0})
unfolding build_finalizer_name contains remove
remove_finalizer c =
    let name = build_finalizer_name c.kind in
    if contains c.finalizers name
    then elim (remove c.finalizers name) [
      | none ↦ crash
      | some l ↦
          wrap (codes "failed to remove finalizer")
            (put_cluster (record c { finalizers = l }) >> pure tt)
    ]
    else pure tt

abbrev owner_of : TopolvmCluster → Result (Text × Text) → Result Owner
owner_of c (ok (version, kind)) =
    ok (record { api_version = version; kind = kind; name = c.name; uid = c.uid })
owner_of c (err x) = err x
owner_of c panic = panic

-- `GetControllerObjectOwnerReference`
unfoldable pub get_controller_object_owner_reference : TopolvmCluster → M Owner
get_controller_object_owner_reference c e t = (owner_of c ((e.kube t).object_kind c), t)
