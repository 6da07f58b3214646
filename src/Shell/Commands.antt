-- ===== src/Shell/Commands.antt =====
-- shell.py: the commands on files and directories.
--
-- A command returns its exit code. What it prints is modelled for pwd and cat, less the messages. rmdir, rm,
-- cp and mv only print.
use ea_x.Prelude.{ℕ, ◌≡◌, refl, ◌∙◌, none, some, List, [], ◌∷◌, ◌++◌, if◌then◌else◌}
use ea_x.Shell.Texts.{same_refl}
use ea_x.Shell.{
  VirtualFileSystem, full_path, change_directory, get_file_content, create_file, create_directory,
}
use ea_x.Shell.Files.{get-put}

pub record Shell : Type 0 where
  pub home_dir : List ℕ
  pub current_dir : List ℕ
  pub vfs : VirtualFileSystem

unfoldable pub cmd_cd : Shell → (args : List (List ℕ)) → ℕ × Shell
cmd_cd s [] = (0, record s { current_dir = s.home_dir })
cmd_cd s (path ∷ args) =
    let (found, vfs') = change_directory s.vfs path in
    if found
    then (0, record s { vfs = vfs'; current_dir = vfs'.current_drive ++ vfs'.current_path })
    else (1, record s { vfs = vfs' })

-- The line that is printed.
unfoldable pub cmd_pwd : Shell → ℕ × List ℕ
cmd_pwd s = (0, b' ' ∷ b' ' ∷ s.current_dir)

-- `if content` fails for a missing file and for an empty one.
unfoldable pub cmd_cat : Shell → (args : List (List ℕ)) → ℕ × List ℕ
cmd_cat s [] = (1, [])
cmd_cat s (path ∷ args) = elim (get_file_content s.vfs path) [
  | none ↦ (1, [])
  | some content ↦ elim content [ [] ↦ (1, []) | ◌∷◌ c cs ↦ (0, c ∷ cs) ]
]

unfoldable pub cmd_mkdir : Shell → (args : List (List ℕ)) → ℕ × Shell
cmd_mkdir s [] = (1, s)
cmd_mkdir s (path ∷ args) =
    let (made, vfs') = create_directory s.vfs path in
    (if made then 0 else 1, record s { vfs = vfs' })

unfoldable pub cmd_touch : Shell → (args : List (List ℕ)) → ℕ × Shell
cmd_touch s [] = (1, s)
cmd_touch s (path ∷ args) = (0, record s { vfs = (create_file s.vfs path []).1 })

-- On every shell, `touch` of a file succeeds, and `cat` of the same name then says that there is no such
-- file: the empty content that was stored passes for none.
cmd_cat-touch :
    (s : Shell) (path : List ℕ) (args args' : List (List ℕ))
    → let (code, s') = cmd_touch s (path ∷ args) in
      (code ≡ 0) × (get_file_content s'.vfs path ≡ some []) × (cmd_cat s' (path ∷ args') ≡ (1, []))
unfolding cmd_touch cmd_cat
cmd_cat-touch s path args args' =
    let s' = (cmd_touch s (path ∷ args)).1 in
    let stored : get_file_content s'.vfs path ≡ some [] =
      unfold get_file_content create_file in
      get-put s.vfs.files (full_path s.vfs path) (full_path s.vfs path) []
      ∙ rw (same_refl (full_path s.vfs path)) refl in
    (refl, stored, rw (stored, cmd_cat) refl)
