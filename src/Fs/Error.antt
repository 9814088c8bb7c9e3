-- ===== src/Fs/Error.antt =====
-- ardain/src/error.rs. The errors of the libraries that it wraps are opaque.
use ard_tools.Path.{InvalidPathError}

pub data Error : Type 0 where
  path : InvalidPathError → Error
  parse io size_convert ard_decompress : Error
  fs_no_entry fs_already_exists fs_file_name_extended : Error
