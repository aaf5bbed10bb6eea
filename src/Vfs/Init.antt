-- ===== src/Vfs/Init.antt =====
-- The mounting of tmpfs in vfs/mod.rs, with its standard directories.
use chod_os.Base.{ℕ, ◌+◌, some, List, [], ◌∷◌}
use chod_os.Base.Text.{codes}
use chod_os.Base.Words.{u64}
use chod_os.Vfs.{Vfs, new_dir, mkdir}

-- `new_root`, which takes the next inode number, and a root that is set to it.
abbrev pub mounted : ℕ → Vfs
mounted ino_seq = record {
  nodes = new_dir ino_seq ∷ [];
  root = some 0;
  ino_seq = u64 (ino_seq + 1);
}

abbrev pub standard_dirs : List (List ℕ)
standard_dirs =
    codes "/tmp"
    ∷ codes "/run"
    ∷ codes "/run/lock"
    ∷ codes "/var"
    ∷ codes "/var/lib"
    ∷ codes "/var/lib/pacman"
    ∷ codes "/var/cache"
    ∷ codes "/var/cache/pacman"
    ∷ codes "/var/cache/pacman/pkg"
    ∷ codes "/var/log"
    ∷ codes "/etc"
    ∷ codes "/etc/pacman.d"
    ∷ codes "/usr"
    ∷ codes "/usr/bin"
    ∷ codes "/usr/lib"
    ∷ codes "/usr/share"
    ∷ codes "/usr/local"
    ∷ codes "/usr/local/bin"
    ∷ codes "/proc"
    ∷ codes "/sys"
    ∷ codes "/dev"
    ∷ []

unfoldable pub make_dirs : Vfs → List (List ℕ) → Vfs
make_dirs fs [] = fs
make_dirs fs (d ∷ ds) = make_dirs (mkdir fs d).1 ds

-- The counter of inode numbers starts at 2.
unfoldable pub init : Vfs
unfolding make_dirs
init = make_dirs (mounted 2) standard_dirs
