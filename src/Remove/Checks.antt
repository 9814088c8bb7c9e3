-- ===== src/Remove/Checks.antt =====
-- ard-tools/src/rm.rs: the command run on an archive.
use ard_tools.Base.{◌≡◌, refl, true, false, [], ◌∷◌, err}
use ard_tools.Arh.Strings.Reader.{little_endian}
use ard_tools.Fs.Sample.{blank}
use ard_tools.Fs.Tree
use ard_tools.Fs.Lookup
use ard_tools.Fs.System
use ard_tools.Remove
use ard_tools.Remove.{no_such_entry}

missing_runs :
    Remove.remove_all little_endian blank
      (record { paths = []; recursive = true; soft = false; restore = false })
      ((b'/' ∷ b'c' ∷ []) ∷ [])
    ≡ err (no_such_entry (b'/' ∷ b'c' ∷ []))
unfolding Remove.remove_all Remove.delete System.is_file System.get_file_info Lookup.get_file_id
    Lookup.walk_root Lookup.walk Tree.get_dir Tree.find_dir Tree.split_first Tree.search_child
missing_runs = refl
