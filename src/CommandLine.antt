-- ===== src/CommandLine.antt =====
-- ard-tools/src/main.rs, and how the commands of ard-tools/src/ls.rs and ard-tools/src/rm.rs begin and end. The
-- arguments are parsed by the `clap` crate; the files are what `File::open` and `File::create` return, of which
-- `none` is an error.
use ard_tools.Base.{Bool, Option, none, some, List, [], Run, ok, err, panic, ◌>>=◌, ok_or}
use ard_tools.Arh.State.{Arh, default_options}
use ard_tools.Arh.Strings.{ReadLe}
use ard_tools.Path.{Text, InvalidPathError, arh_path_root, normalize}
use ard_tools.Fs.Error.{Error, io}
use ard_tools.Fs.Load
use ard_tools.Fs.System.{ArhFileSystem}
use ard_tools.Remove.{CommandError, fs_error, RemoveArgs, remove_all}
use ard_tools.ListCommand

record InputData : Type 0 where
  in_arh : Option Text
  in_ard : Option Text
  out_arh : Option Text

record ListArgs : Type 0 where
  working_directory : Option Text
  raw : Bool

data Commands : Type 0 where
  list : ListArgs → Commands
  remove : RemoveArgs → Commands

-- The errors of the program: those of the commands, and its two own.
data ProgramError : Type 0 where
  command_error : CommandError → ProgramError
  no_input no_directory unreadable : ProgramError

-- `parse_path`, by which `clap` makes paths of arguments.
abbrev parse_path : Text → Run InvalidPathError Text
parse_path s = normalize s

abbrev or_else : Option Text → Option Text → Option Text
or_else (some a) other = some a
or_else none other = other

-- `unwrap_or_default` of a path.
abbrev or_default : Option Text → Text
or_default none = arh_path_root
or_default (some path) = path

abbrev from_fs : {A : Type 0} → Run Error A → Run ProgramError A
from_fs (ok a) = ok a
from_fs (err e) = err (command_error (fs_error e))
from_fs panic = panic

abbrev from_load : {A : Type 0} → Run (Unit {0}) A → ProgramError → Run ProgramError A
from_load (ok a) fault = ok a
from_load (err e) fault = err fault
from_load panic fault = panic

abbrev from_command : {A : Type 0} → Run CommandError A → Run ProgramError A
from_command (ok a) = ok a
from_command (err e) = err (command_error e)
from_command panic = panic

module _ (reader : ReadLe) {Stream : Type 0} (read_arh : Stream → Option Arh)
    (write_arh : Arh → Stream → Option Stream) (open_file create : Text → Option Stream)
    (input : InputData) where
  -- `InputData::load_fs`, by `ArhFileSystem::load` with its default options.
  unfoldable load_fs : Run ProgramError ArhFileSystem
  load_fs = do
    path ← ok_or input.in_arh no_input
    stream ← ok_or (open_file path) (command_error (fs_error io))
    from_load (Load.load_with_options reader read_arh stream default_options) unreadable

  -- `InputData::write_fs`: the path of the file that is written, and what is written to it.
  unfoldable write_fs : ArhFileSystem → Run ProgramError (Text × Stream)
  write_fs fs = do
    path ← ok_or (or_else input.out_arh input.in_arh) no_input
    stream ← ok_or (create path) (command_error (fs_error io))
    (after, written) ← from_fs (Load.sync write_arh fs stream)
    ok (path, written)

  -- The commands: the lines that are printed, and the file that is written.
  unfoldable run_list : ListArgs → Run ProgramError (List Text × Option (Text × Stream))
  run_list args = do
    fs ← load_fs
    lines ←
        from_load (ListCommand.run reader fs (or_default args.working_directory) args.raw)
          no_directory
    ok (lines, none)

  unfoldable run_remove : RemoveArgs → Run ProgramError (List Text × Option (Text × Stream))
  run_remove args = do
    fs ← load_fs
    after ← from_command (remove_all reader fs args args.paths)
    file ← write_fs after
    ok ([], some file)

  -- `main`.
  unfoldable run_command : Option Commands → Run ProgramError (List Text × Option (Text × Stream))
  run_command none = ok ([], none)
  run_command (some (list args)) = run_list args
  run_command (some (remove args)) = run_remove args
