-- ===== src/Shell/Start.antt =====
-- shell.py: the file system that the shell starts with.
use Prim.Native.String.{String}
use ea_x.Prelude.{ℕ, List, [], ◌∷◌}
use ea_x.Prelude.Texts.{codes}
use ea_x.Shell.{VirtualFileSystem}

unfoldable texts : List String → List (List ℕ)
unfolding codes
texts [] = []
texts (s ∷ ss) = codes s ∷ texts ss

-- `_load_system_cfg`
unfoldable pub load_system_cfg : List ℕ
unfolding codes
load_system_cfg =
    codes
      "# eaX OS System Configuration\n[system]\nname = eaX OS\nversion = 1.0.0\ncodename = Fortress\n"

-- `__init__`
unfoldable pub init : VirtualFileSystem
unfolding codes texts load_system_cfg
init = record {
  current_drive = codes "C:";
  current_path = codes "/";
  directories =
      (
        codes "C:/",
        texts (
            "bin" ∷ "etc" ∷ "home" ∷ "tmp" ∷ "dev" ∷ "sys" ∷ "proc" ∷ "system" ∷ "programs"
            ∷ "games" ∷ []),
      )
      ∷ (
        codes "C:/bin",
        texts
            ("shell.py" ∷ "fortress.py" ∷ "ls" ∷ "cd" ∷ "cat" ∷ "mkdir" ∷ "rm" ∷ "cp" ∷ "mv" ∷ []),
      )
      ∷ (codes "C:/etc", texts ("system.cfg" ∷ "fortress.cfg" ∷ "passwd" ∷ "group" ∷ []))
      ∷ (codes "C:/home", texts ("admin" ∷ "user" ∷ []))
      ∷ (
        codes "C:/home/admin",
        texts ("documents" ∷ "downloads" ∷ "desktop" ∷ "pictures" ∷ "music" ∷ []),
      )
      ∷ (
        codes "C:/system",
        texts ("kernel.bin" ∷ "boot.bin" ∷ "quarantine" ∷ "drivers" ∷ "modules" ∷ []),
      )
      ∷ (codes "C:/programs", texts ("source_code" ∷ "compiled" ∷ "projects" ∷ []))
      ∷ (codes "C:/games", texts ("tictactoe" ∷ "chess" ∷ "checkers" ∷ []))
      ∷ [];
  files =
      (codes "C:/etc/system.cfg", load_system_cfg)
      ∷ (
        codes "C:/home/admin/documents/readme.txt",
        codes "Welcome to eaX OS!\nThis is your personal computer.",
      )
      ∷ [];
}
