-- ===== src/Shell/Tests.antt =====
-- shell.py at concrete inputs.
use ea_x.Prelude.{ℕ, ◌≡◌, refl, true, none, some, List, [], ◌∷◌, ◌++◌, if◌then◌else◌}
use ea_x.Prelude.Texts.{codes}
use ea_x.Shell.{
  VirtualFileSystem, list_directory, change_directory, get_file_content, create_file,
  create_directory, add_child, is_key, get, put,
}
use ea_x.Shell.Texts.{split, slash, same, rstrip, join, all_but_last}
use ea_x.Shell.Start.{init}
use ea_x.Shell.Paths.{Step, up, here, into, IsStep, IsAt, run, walk, walk_all, run-walk_all}
use ea_x.Shell.Files.{children_of, with_child_at, create_file_lem}

abbrev home : List ℕ
home = codes "home"

init-IsAt : IsAt init []
unfolding init codes join
init-IsAt = record { names = tt; path = refl }

abbrev etc : List ℕ
etc = codes "etc"

etc-IsStep : IsStep (into etc)
unfolding codes same
etc-IsStep = ((refl, (refl, (refl, tt))), refl, refl)

home-IsStep : IsStep (into home)
unfolding codes same
home-IsStep = ((refl, (refl, (refl, (refl, tt)))), refl, refl)

abbrev steps : List Step
steps = into home ∷ into etc ∷ here ∷ up ∷ into etc ∷ []

-- The first "etc" is looked for as "C:/homeetc".
run-walk_all_example :
    IsAt (run init steps) (etc ∷ [])
    × ((run init steps).directories ≡ init.directories)
    × ((run init steps).current_drive ≡ init.current_drive)
unfolding init walk_all walk codes is_key same join all_but_last
run-walk_all_example =
    run-walk_all init [] steps init-IsAt (home-IsStep, (etc-IsStep, (tt, (tt, (etc-IsStep, tt)))))

-- A new directory, and into it.
made : (change_directory (create_directory init (codes "new")).1 (codes "new")).0 ≡ true
unfolding init create_directory add_child change_directory codes same is_key put get join
    all_but_last split
made = refl

-- In "/home".
abbrev at_home : VirtualFileSystem
at_home = (change_directory init home).1

at_home-path : at_home.current_path ≡ [] ++ (slash ∷ home)
unfolding init change_directory codes same is_key rstrip
at_home-path = refl

-- The file is listed as "homea.txt", in the root if that had no slash behind the drive.
create_file_lem_example :
    let (done, s') = create_file at_home (codes "a.txt") (codes "text") in
    (done ≡ true)
    × ((other : List ℕ)
        → get_file_content s' other ≡ (
            if same (codes "a.txt") other
            then some (codes "text")
            else get_file_content at_home other))
    × ((q : List ℕ)
        → list_directory s' (some q)
          ≡ children_of (
              with_child_at
                (same (at_home.current_drive ++ []) q)
                (home ++ codes "a.txt")
                (get at_home.directories q)))
    × (list_directory s' none ≡ list_directory at_home none)
create_file_lem_example =
    create_file_lem at_home [] home (codes "a.txt") (codes "text") at_home-path
      (unfold codes in (refl, (refl, (refl, (refl, (refl, (refl, (refl, (refl, (refl, tt))))))))))

-- From "/home", "/admin" is found, and makes a path that no directory has.
twice : (change_directory at_home (codes "/admin")).1.current_path ≡ codes "/home//admin"
unfolding init change_directory codes same is_key rstrip
twice = refl

lost : list_directory (change_directory at_home (codes "/admin")).1 none ≡ []
unfolding init change_directory codes same is_key rstrip list_directory get
lost = refl
