-- ===== src/PrepareVg/Resize/Loops.antt =====
-- A group on a loop device of the operator, expanded and then shrunk.
use topolvm_operator.Base.{All, sym, inl, inr, ◌≡◌, ◌≢◌, refl, none, some, [], ◌∷◌, arith}
use topolvm_operator.Base.Text.{Text, same_refl}
use topolvm_operator.Base.Maps.{Map, lookup}
use topolvm_operator.Api.{Disk, DeviceClass, LoopState, ClassState}
use topolvm_operator.Env.{Env, Trace, ok, value}
use topolvm_operator.Env.Laws.{attempt-eq}
use topolvm_operator.Sys.Lvm.{get_physical_volume, remove_volume_group}
use topolvm_operator.PrepareVg.{resolve}
use topolvm_operator.PrepareVg.Resize.{
  expand_disk, expand_disks, extend, expand_listed, check_vg_if_expand, check_vg_if_shrink,
}
use topolvm_operator.PrepareVg.Resize.Named.{IsNamed}
use topolvm_operator.PrepareVg.Resize.Shrink.{pvs_at, check_vg_if_shrink-runs}

module _ (loop_map : Map LoopState) (class : DeviceClass) (suc : Map ClassState) (d d' : Disk)
    (e : Env) (t : Trace) where
  abbrev only : Map Text
  only = (d'.name, d'.name) ∷ []

  listed_complete :
      (t' : Trace)
      → class.device ≡ d ∷ []
      → resolve loop_map d ≡ some d'
      → expand_listed loop_map class suc (value only) e t' ≡ (ok (suc, none), t')
  unfolding expand_listed expand_disks expand_disk extend lookup
  listed_complete t' p q = rw (p, q, same_refl d'.name) refl

  complete :
      class.device ≡ d ∷ []
      → resolve loop_map d ≡ some d'
      → (get_physical_volume class.vg_name e t).0 ≡ ok only
      → check_vg_if_expand loop_map class suc e t
        ≡ (ok (suc, none), (get_physical_volume class.vg_name e t).1)
  unfolding check_vg_if_expand
  complete p q h =
      rw (attempt-eq (get_physical_volume class.vg_name) e t, h)
        (listed_complete (get_physical_volume class.vg_name e t).1 p q)

  unnamed_volume :
      class.device ≡ d ∷ []
      → d'.name ≢ d.name
      → pvs_at class.vg_name e t only ≡ d'.name ∷ []
      → All (λ pv. ¬ IsNamed class.device pv) (pvs_at class.vg_name e t only)
  unnamed_volume p n o = rw (o, p) ((λ h. elim h [ inl q ↦ n (sym q) | inr z ↦ absurd z ]), tt)

  -- Where the only disk of a class goes by another name than in the specification, as a loop device
  -- of the operator does, and the group is reported to have just the volume of that name, the check
  -- for an expansion runs no further command, and the check for a shrinking goes on with the commands
  -- of `RemoveVolumeGroup`.
  pub expand_then_shrink-removes :
      class.device ≡ d ∷ []
      → resolve loop_map d ≡ some d'
      → d'.name ≢ d.name
      → (get_physical_volume class.vg_name e t).0 ≡ ok only
      → pvs_at class.vg_name e t only ≡ d'.name ∷ []
      → (check_vg_if_expand loop_map class suc e t
          ≡ (ok (suc, none), (get_physical_volume class.vg_name e t).1))
        × ((check_vg_if_shrink class suc e t).1
            ≡ (remove_volume_group class.vg_name e (get_physical_volume class.vg_name e t).1).1)
  expand_then_shrink-removes p q n h o = (
    complete p q h,
    (check_vg_if_shrink-runs class suc e t only h).1 (unnamed_volume p n o) (rw o (omega arith)),
  )
