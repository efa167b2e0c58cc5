-- ===== src/PrepareVg/Provision/Existing.antt =====
-- A class whose group was there before: what the next run makes of its state.
use topolvm_operator.Base.{◌≡◌, ◌≢◌, refl, false, [], ◌∷◌, arith}
use topolvm_operator.Base.Text.{same_iff}
use topolvm_operator.Base.Maps.{Map, lookup, insert, has_key}
use topolvm_operator.Api.{DeviceClass, LoopState}
use topolvm_operator.Env.{Env, Trace, pure}
use topolvm_operator.Env.Laws.{bind-silent}
use topolvm_operator.Sys.Device.{LocalDisk}
use topolvm_operator.PrepareVg.Create.{create_vg}
use topolvm_operator.PrepareVg.Provision.{
  Progress, get_vg_name_map, existing, add_created, next_class,
}

-- What the next run starts from, where that state is the only one in the status.
abbrev pub next_run : DeviceClass → Progress
next_run class = record {
  classes = record {
    suc = get_vg_name_map [] [];
    failed = get_vg_name_map (existing class ∷ []) [];
  };
  suc_vgs = [];
}

forgotten :
    (class : DeviceClass)
    → class.vg_name ≢ []
    → has_key class.vg_name (get_vg_name_map (existing class ∷ []) []) ≡ false
unfolding get_vg_name_map existing insert lookup
forgotten class h = ground (arith, same_iff [] class.vg_name, h)

unknown : (class : DeviceClass) → has_key class.vg_name (get_vg_name_map [] []) ≡ false
unfolding get_vg_name_map lookup
unknown class = refl

-- Where the status holds just the state of a class that the first run refused, since a group of its
-- name was there, and that name is not empty, the next run does for the class what `createVg` does
-- for a new one.
pub next_class-forgets_existing :
    (loop_map : Map LoopState) (disks : Map LocalDisk) (class : DeviceClass) (e : Env) (t : Trace)
    → class.vg_name ≢ []
    → (next_class loop_map disks class (next_run class) e t).1
      ≡ (create_vg loop_map disks class (next_run class).classes e t).1
unfolding next_class
next_class-forgets_existing loop_map disks class e t h =
    rw (forgotten class h, unknown class)
      (bind-silent (create_vg loop_map disks class (next_run class).classes)
        (λ c. pure (add_created (next_run class) c)) e t (λ c t'. refl))
