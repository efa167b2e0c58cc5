-- ===== src/PrepareVg/Loops/Tests.antt =====
-- Making a loop device on a node where `losetup` fails.
use topolvm_operator.Base.{◌≡◌, refl, true, [], ◌∷◌, All}
use topolvm_operator.Base.Text.{codes, same}
use topolvm_operator.Base.Maps.{insert}
use topolvm_operator.Go.Strings.{trim_space, trim}
use topolvm_operator.Api.{Disk, LoopState}
use topolvm_operator.Cluster.{loop_create_successful}
use topolvm_operator.Env.{
  ok, execute_command, execute_command_with_output, execute_command_with_status,
  run_command_with_output, assert_error_type, message,
}
use topolvm_operator.Env.World.{broken_node}
use topolvm_operator.PrepareVg.{loop}
use topolvm_operator.PrepareVg.Loops.{
  Loops, check_loop_device, check_disk, check_found, find_loop, missing_loop, make_loop, new_state,
  put_state, get_absolute_file_name,
}
use topolvm_operator.PrepareVg.Loops.States.{IsSuccessful, check_loop_device-All-IsSuccessful}

abbrev loop1 : Disk
loop1 = record { name = codes "loop1"; type = loop; auto = true; path = codes "/data/"; size = 10 }

abbrev no_loops : Loops
no_loops = record { states = []; by_name = [] }

abbrev not_made : LoopState
not_made = record {
  name = codes "loop1";
  file = codes "/data/file1";
  device_name = [];
  status = loop_create_successful;
  message = codes "exit status 5";
}

abbrev one_loop : Loops
one_loop = record { states = not_made ∷ []; by_name = (codes "loop1", not_made) ∷ [] }

checked : (check_loop_device (loop1 ∷ []) no_loops broken_node []).0 ≡ ok one_loop
unfolding check_loop_device check_disk check_found find_loop missing_loop make_loop new_state
    put_state get_absolute_file_name insert same execute_command execute_command_with_output
    execute_command_with_status run_command_with_output assert_error_type message trim_space trim
    topolvm_operator.Sys.Loop.create_loop topolvm_operator.Sys.Lvm.wrap_exec_command
    topolvm_operator.Go.Strings.has_suffix
checked = refl

check_loop_device-All-IsSuccessful_example : All IsSuccessful one_loop.states
check_loop_device-All-IsSuccessful_example =
    check_loop_device-All-IsSuccessful (loop1 ∷ []) no_loops broken_node [] one_loop tt checked
