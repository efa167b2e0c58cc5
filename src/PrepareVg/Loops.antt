-- ===== src/PrepareVg/Loops.antt =====
-- `checkLoopDevice`: loop devices for the disks of type `loop`.
pub mod States
mod Tests
use topolvm_operator.Base.{
  ℕ, Bool, true, false, not, Option, none, some, List, [], ◌∷◌, ◌++◌, if◌then◌else◌,
}
use topolvm_operator.Base.Text.{Text, codes, same}
use topolvm_operator.Base.Maps.{Map, insert}
use topolvm_operator.Go.Strings.{has_suffix}
use topolvm_operator.Api.{Disk, LoopState}
use topolvm_operator.Cluster.{loop_create_successful}
use topolvm_operator.Env.{
  M, pure, asks, ◌>>=◌, ◌>>◌, Error, message, Outcome, value, error, attempt,
}
use topolvm_operator.Sys.Loop.{create_loop, get_loop_back_file}
use topolvm_operator.PrepareVg.{loop, loop_create_failed}

-- What the loop over the disks changes: `*loops` and `loopMap`.
pub record Loops : Type 0 where
  pub states : List LoopState
  pub by_name : Map LoopState

unfoldable pub get_absolute_file_name : Text → Text → Text
get_absolute_file_name path file =
    if has_suffix path (codes "/") then path ++ file else path ++ b'/' ∷ file

-- The inner loop stops at the first state of that name.
unfoldable pub find_loop : Text → List LoopState → Option LoopState
find_loop name [] = none
find_loop name (l ∷ ls) = if same l.name name then some l else find_loop name ls

-- `(*loops)[failedLoopIndex] = s`, at the index where the inner loop stopped.
unfoldable pub replace_loop : Text → LoopState → List LoopState → List LoopState
replace_loop name s [] = []
replace_loop name s (l ∷ ls) = if same l.name name then s ∷ ls else l ∷ replace_loop name s ls

-- The new state: on an error it is marked as failed first, and as successful right after.
unfoldable pub new_state : Text → Text → Outcome Text → LoopState
new_state name file (value device) = record {
  name = name;
  file = file;
  device_name = device;
  status = loop_create_successful;
  message = [];
}
new_state name file (error x) = record {
  name = name;
  file = file;
  device_name = [];
  status = loop_create_successful;
  message = message x;
}

put_state : Bool → Text → LoopState → Loops → Loops
put_state true name s ls = record {
  states = replace_loop name s ls.states;
  by_name = insert name s ls.by_name;
}
put_state false name s ls = record {
  states = ls.states ++ s ∷ [];
  by_name = insert name s ls.by_name;
}

pub make_loop : Disk → Bool → Loops → M Loops
unfolding put_state
make_loop disk retry ls = do
  uuid ← asks (λ e t. e.new_uuid t)
  let file = get_absolute_file_name disk.path uuid
  r ← attempt (create_loop file disk.size)
  pure (put_state retry disk.name (new_state disk.name file r) ls)

unfoldable pub given_state : Text → Outcome Text → LoopState
given_state name (value file) = record {
  name = name;
  file = file;
  device_name = name;
  status = loop_create_successful;
  message = [];
}
given_state name (error x) = record {
  name = name;
  file = [];
  device_name = name;
  status = loop_create_successful;
  message = message x;
}

-- A loop device that the user set up is only looked at.
pub note_loop : Disk → Loops → M Loops
note_loop disk ls = do
  r ← attempt (get_loop_back_file disk.name)
  pure (record ls { states = ls.states ++ given_state disk.name r ∷ [] })

missing_loop : Disk → Bool → Loops → M Loops
missing_loop disk retry ls = if disk.auto then make_loop disk retry ls else note_loop disk ls

check_found : Disk → Loops → Option LoopState → M Loops
unfolding missing_loop
check_found disk ls none = missing_loop disk false ls
check_found disk ls (some l) =
    if same l.status loop_create_successful
    then pure (record ls { by_name = insert l.name l ls.by_name })
    else missing_loop disk true ls

pub check_disk : Disk → Loops → M Loops
unfolding check_found
check_disk disk ls =
    if same disk.type loop then check_found disk ls (find_loop disk.name ls.states) else pure ls

pub check_loop_device : List Disk → Loops → M Loops
check_loop_device [] ls = pure ls
check_loop_device (d ∷ ds) ls = do ls' ← check_disk d ls; check_loop_device ds ls'
