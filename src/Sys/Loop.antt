-- ===== src/Sys/Loop.antt =====
-- pkg/util/sys/loop.go: loop devices over files, made and read with `losetup`.
use topolvm_operator.Base.{ℕ, ◌%◌, ◌^◌, Bool, false, List, [], ◌∷◌, ◌++◌, any, if◌then◌else◌}
use topolvm_operator.Base.Text.{Text, codes, same}
use topolvm_operator.Go.Strings.{split, trim_space}
use topolvm_operator.Go.Numbers.{itoa}
use topolvm_operator.Env.{M, pure, fail, new, ◌>>=◌, ◌>>◌, Outcome, value, error, attempt}
use topolvm_operator.Sys.Lvm.{wrap_exec_command, wrap_exec_command_with_output}
use topolvm_operator.Sys.Device.{LocalDisk}
use topolvm_operator.Sys.Disks.{discover_devices}

-- The second of two lines: the first is the heading of the column.
second_line : Text → List Text → M Text
second_line problem (heading ∷ line ∷ []) = pure (trim_space line)
second_line problem _ = fail (new problem)

-- The file is removed again where no loop device can be set up on it.
or_remove : Text → Outcome (Unit {0}) → M (Unit {0})
or_remove file (value u) = pure tt
or_remove file (error x) = do
  attempt (wrap_exec_command (codes "rm" ∷ codes "-f" ∷ file ∷ []))
  fail x

-- `strconv.Itoa(int(size))` of a uint64: from 2^63 on the number is negative.
unfoldable pub int_text : ℕ → Text
int_text size = itoa (size % 2 ^ 64)

unfoldable pub create_loop : Text → ℕ → M Text
unfolding or_remove second_line int_text
create_loop file size = do
  wrap_exec_command (codes "truncate" ∷ (codes "--size=" ++ int_text size ++ codes "G") ∷ file ∷ [])
  r ← attempt (wrap_exec_command (codes "losetup" ∷ codes "-f" ∷ file ∷ []))
  or_remove file r
  out ←
      wrap_exec_command_with_output
        (codes "losetup" ∷ codes "-j" ∷ file ∷ codes "-O" ∷ codes "name" ∷ [])
  second_line (codes "get loop name failed for file" ++ file) (split out b'\n')

pub get_loop_back_file : Text → M Text
unfolding second_line
get_loop_back_file loop = do
  out ← wrap_exec_command_with_output (codes "losetup" ∷ loop ∷ codes "-O" ∷ codes "back-file" ∷ [])
  second_line (codes "get loop %s back file name failed " ++ loop) (split out b'\n')

unfoldable pub set_up : Text → List LocalDisk → Bool
set_up loop devices = any (λ (d : LocalDisk). same (codes "/dev/" ++ d.name) loop) devices

pub re_setup_loop : Text → Text → M (Unit {0})
re_setup_loop file loop = do
  devices ← discover_devices false
  if set_up loop devices then pure tt else wrap_exec_command (codes "losetup" ∷ loop ∷ file ∷ [])
