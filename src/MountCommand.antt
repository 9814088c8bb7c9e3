-- ===== src/MountCommand.antt =====
-- fuse-ard/src/main.rs: how the program fuse-ard opens its files and what it mounts. The arguments are
-- parsed by the `clap` crate. What `File::open` returns and what `OpenOptions::open` and `try_clone`
-- return are parameters, of which `none` is an error. The set-up of the log and the mount itself, which
-- is `mount2` of the `fuser` crate, are left out.
use ard_tools.Base.{
  ℕ, Bool, true, false, Option, none, some, List, [], ◌∷◌, ◌++◌, Run, ok, err, panic, ◌>>=◌,
}
use ard_tools.Arh.State.{Arh}
use ard_tools.Arh.Strings.{ReadLe}
use ard_tools.Path.{Text}
use ard_tools.Mount.{Mount}
use ard_tools.Mount.Sync

-- The options of `fuser` that the program uses: those that it names, and its two custom ones.
data MountOption : Type 0 where
  no_exec no_atime default_permissions ro kernel_cache_option debug_option : MountOption

-- What `clap` makes of the arguments.
record Arguments : Type 0 where
  mount_point : Text
  arh : Text
  ard : Option Text
  arhout : Option Text
  readonly : Bool
  debug : Bool

-- What `mount2` is given, and the path of the archive that the driver writes.
record Mounted : Type 0 where
  system : Mount
  mount_point : Text
  options : List MountOption
  out_arh : Text

-- `unwrap`, of an option and of a result.
abbrev unwrap : {A : Type 0} → Option A → Run (Unit {0}) A
unwrap (some a) = ok a
unwrap none = panic

abbrev unwrap_run : {A : Type 0} → Run (Unit {0}) A → Run (Unit {0}) A
unwrap_run (ok a) = ok a
unwrap_run (err e) = panic
unwrap_run panic = panic

abbrev unwrap_or : Option Text → Text → Text
unwrap_or (some path) other = path
unwrap_or none other = other

abbrev option_if : Bool → MountOption → List MountOption
option_if true option = option ∷ []
option_if false option = []

abbrev mount_options : Arguments → List MountOption
mount_options args =
    (no_exec ∷ no_atime ∷ default_permissions ∷ kernel_cache_option ∷ [])
    ++ (option_if args.debug debug_option ++ option_if args.readonly ro)

-- The user and the group of the files: `unix` is the `cfg` of this name.
abbrev owner : Bool → ℕ → ℕ → ℕ × ℕ
owner true geteuid getuid = (geteuid, getuid)
owner false geteuid getuid = (0, 0)

module _ (reader : ReadLe) {Stream : Type 0} (read_arh : Stream → Option Arh)
    (open_arh : Text → Option Stream) (open_ard : Text → Option (List ℕ)) where
  -- `StandardArdFile::new`, if there is a path; a panic where it fails, by `unwrap`.
  unfoldable open_data : Option Text → Run (Unit {0}) (Option (List ℕ))
  open_data none = ok none
  open_data (some path) = do bytes ← unwrap (open_ard path); ok (some bytes)

  -- `main`, up to `mount2`.
  unfoldable mount_archive : Bool → ℕ → ℕ → Arguments → Run (Unit {0}) Mounted
  mount_archive unix geteuid getuid args = do
    stream ← unwrap (open_arh args.arh)
    ard ← open_data args.ard
    let ids : ℕ × ℕ = owner unix geteuid getuid
    system ← unwrap_run (Sync.load reader read_arh stream ard ids.0 ids.1)
    ok (record {
      system = system;
      mount_point = args.mount_point;
      options = mount_options args;
      out_arh = unwrap_or args.arhout args.arh;
    })
