-- ===== src/Docker/Build.antt =====
-- computing/docker/docker_service.go: the building of an image from the files of a directory.
pub mod Laws
pub mod Sent
use computing_api.Base.{
  Error, Exec, Option, Result, Str, [], false, lift, none, pure, raise, some, true, ℕ, ◌++◌, ◌>>=◌,
  ◌>>◌, ◌∷◌,
}
use computing_api.Std.Tar.{Writer, empty_writer, write, write_header}
use computing_api.Docker.Images.{Engine, Stream, print_out}

mutual
  -- What `filepath.Walk` finds under a path: an error of `Lstat`; a directory, whose names cannot be
  -- read or which has the entries in the order of their names; or something else, with the size that
  -- `tar.FileInfoHeader` writes down (0 unless it is a regular file; an error for a socket) and what
  -- `os.Open` and reading give.
  pub data Tree : Type 0 where
    missing : Error → Tree
    unreadable : Error → Tree
    dir : Entries → Tree
    file : Result ℕ → Result Stream → Tree

  pub data Entries : Type 0 where
    end : Entries
    entry : Str → Tree → Entries → Entries

-- `io.Copy`: what can be read is written, and then an error of the reading is returned.
abbrev pub ended_with : Option Error → Exec Writer (Unit {0})
ended_with none = pure tt
ended_with (some e) = raise e

unfoldable pub copy : Stream → Exec Writer (Unit {0})
unfolding write
copy rd = write rd.content >> ended_with rd.failed

-- `filepath.Rel` of a path that the walk has come to: `.` for the first one.
abbrev pub rel_path : Str → Str → Str
rel_path [] name = name
rel_path (c ∷ rel) name = c ∷ rel ++ b'/' ∷ name

abbrev pub rel_name : Str → Str
rel_name [] = b'.' ∷ []
rel_name (c ∷ rel) = c ∷ rel

-- The function that is walked with, at a file and at a directory.
unfoldable pub add_file : Str → Result ℕ → Result Stream → Exec Writer (Unit {0})
unfolding write_header copy
add_file rel info opened = do
  size ← lift info
  write_header (rel_name rel) false size
  rd ← lift opened
  copy rd

unfoldable pub add_dir : Str → Exec Writer (Unit {0})
unfolding write_header
add_dir rel = write_header (rel_name rel) true 0

-- `filepath.Walk`: the first error ends it.
unfoldable mutual
  pub walk : Str → Tree → Exec Writer (Unit {0})
  walk rel (missing e) = raise e
  walk rel (unreadable e) = raise e
  walk rel (dir entries) = add_dir rel >> walk_entries rel entries
  walk rel (file info opened) = add_file rel info opened

  pub walk_entries : Str → Entries → Exec Writer (Unit {0})
  walk_entries rel end = pure tt
  walk_entries rel (entry name t entries) = walk (rel_path rel name) t >> walk_entries rel entries

module _ (docker : Engine) where
  -- The result of the walk is not looked at, and the writer is closed only when the build has ended:
  -- what docker reads has no padding behind the last file and no end mark.
  unfoldable pub build_image : Tree → Str → Exec docker.State (Unit {0})
  unfolding walk print_out
  build_image build_path image_name = do
    let tw = (walk [] build_path empty_writer).1
    rd ← docker.image_build tw.blocks image_name
    lift (print_out docker.error_of rd)
