-- ===== src/Mount/Sync.antt =====
-- fuse-ard/src/fs.rs: `flush`, `fsync`, `fsyncdir`, `destroy` and `sync`, which store what is held in memory, and `load`. The
-- file of the archive is what `File::create` returns (`none` is its error) and `Arh::write` writes to.
use ard_tools.Base.{
  ℕ, Bool, false, Option, none, some, List, [], ◌>>=◌, set, if◌then◌else◌, Run, ok, err, panic,
}
use ard_tools.Arh.State.{Arh, default_options, prepare_for_write}
use ard_tools.Arh.Strings.{ReadLe}
use ard_tools.Fs.Error.{Error, io}
use ard_tools.Fs.System.{ArhFileSystem}
use ard_tools.Fs.Load
use ard_tools.Ard.{Decompressor}
use ard_tools.Alloc.{Xbc1Lib}
use ard_tools.Buffers.{get_handle}
use ard_tools.Buffers.Flush.{ArdFile, flush, flush_all}
use ard_tools.Mount.{Mount, Reply, errno, error, done, eio, enotsup}
use ard_tools.Mount.Handlers.{Handled}

module _ (reader : ReadLe) (xbc1 : Decompressor) (lib : Xbc1Lib) (file : ArdFile) where
  -- The reply to a flush: all of its errors are `anyhow` errors.
  abbrev pub flush_reply : Option Error → Reply
  flush_reply none = done
  flush_reply (some e) = error eio

  -- `flush` of the driver.
  unfoldable pub flush_file : Mount → ℕ → Handled
  flush_file m fh = elim (get_handle m.write_buffers fh) [
    | none ↦ ok (m, done)
    | some buffer ↦ elim m.ard [
      | none ↦ ok (m, error enotsup)
      | some bytes ↦ elim (flush reader xbc1 lib file buffer m.arh bytes) [
        | panic ↦ panic
        | err e ↦ panic
        | ok now ↦ ok (
          record m {
            arh = now.arh;
            ard = some now.ard;
            write_buffers = set m.write_buffers fh now.buffer;
          },
          flush_reply now.result,
        )
      ]
    ]
  ]

module _ {Stream : Type 0} (write_arh : Arh → Stream → Option Stream) where
  -- The archive as `prepare_for_write` leaves it.
  abbrev prepared : ArhFileSystem → ArhFileSystem
  prepared fs = elim (prepare_for_write fs.arh) [ none ↦ fs | some arh ↦ record fs { arh = arh } ]

  -- `ArhFuseSystem::sync`: the state, the result, and what has been written to the file that was created.
  unfoldable sync_files :
      Mount → Bool → Option Stream → Run (Unit {0}) (Mount × Option Error × Option Stream)
  sync_files m only_data created =
      let synced : Run (Unit {0}) (Mount × Option Error × Option Stream) = elim created [
        | none ↦ ok (m, some io, none)
        | some stream ↦ elim (Load.sync write_arh m.arh stream) [
          | panic ↦ panic
          | err e ↦ ok (record m { arh = prepared m.arh }, some e, none)
          | ok (fs, written) ↦ ok (record m { arh = fs }, none, some written)
        ]
      ] in
      if only_data then ok (m, none, none) else synced

  abbrev sync_reply : Option Error → Reply
  sync_reply none = done
  sync_reply (some e) = error (errno e)

  -- `fsync` and `fsyncdir`.
  unfoldable fsync : Mount → Bool → Option Stream → Run (Unit {0}) (Mount × Reply × Option Stream)
  fsync m only_data created = elim (sync_files m only_data created) [
    | panic ↦ panic
    | err e ↦ panic
    | ok (after, result, written) ↦ ok (after, sync_reply result, written)
  ]

  abbrev fsyncdir : Mount → Bool → Option Stream → Run (Unit {0}) (Mount × Reply × Option Stream)
  fsyncdir = fsync

  module _ (reader : ReadLe) (xbc1 : Decompressor) (lib : Xbc1Lib) (file : ArdFile) where
    -- The buffers of `destroy`; a panic where there is an error, by `expect`.
    unfoldable flush_buffers : Mount → Run (Unit {0}) Mount
    flush_buffers m = elim m.ard [
      | none ↦ ok m
      | some bytes ↦ elim (flush_all reader xbc1 lib file m.write_buffers m.arh bytes) [
        | panic ↦ panic
        | err e ↦ panic
        | ok (files, after, stored, result) ↦ elim result [
          | some e ↦ panic
          | none ↦ ok (record m { arh = after; ard = some stored; write_buffers = files })
        ]
      ]
    ]

    -- `destroy`: the state, and what has been written to the file of the archive.
    unfoldable destroy : Mount → Option Stream → Run (Unit {0}) (Mount × Option Stream)
    destroy m created = elim (flush_buffers m) [
      | panic ↦ panic
      | err e ↦ panic
      | ok flushed ↦ elim (sync_files flushed false created) [
        | panic ↦ panic
        | err e ↦ panic
        | ok (after, result, written) ↦ elim result [ some e ↦ panic | none ↦ ok (after, written) ]
      ]
    ]

module _ (reader : ReadLe) {Stream : Type 0} (read_arh : Stream → Option Arh) where
  -- `ArhFuseSystem::load`, with `ArhFileSystem::load` and its default options.
  unfoldable pub load : Stream → Option (List ℕ) → ℕ → ℕ → Run (Unit {0}) Mount
  load stream ard uid gid = do
    fs ← Load.load_with_options reader read_arh stream default_options
    ok (record { arh = fs; ard = ard; inode_cache = []; write_buffers = []; uid = uid; gid = gid })
