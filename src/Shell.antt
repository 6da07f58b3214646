-- ===== src/Shell.antt =====
-- shell.py: the simulated file system of the shell, and the commands that use it.
--
-- A text is the list of its characters. The dictionaries keep the order in which their keys came, as
-- Python's do. The entry of a directory is the list of its children: its other item, the type, is always
-- the same and is not read. The drives are not modelled: no operation changes them.
pub mod Texts
pub mod Words
pub mod Files
pub mod Paths
pub mod Start
pub mod Made
pub mod Commands
mod Tests
use ea_x.Prelude.{
  ℕ, Bool, true, false, not, ◌||◌, Option, none, some, List, [], ◌∷◌, ◌++◌, if◌then◌else◌,
}
use ea_x.Shell.Texts.{
  slash, same, starts_with_slash, rstrip, strip, split, join, all_but_last, last,
}

-- `d.get(key)`
unfoldable pub get {ℓ} : {A : Type ℓ} → List (List ℕ × A) → List ℕ → Option A
get [] key = none
get ((k, v) ∷ entries) key = let rest = get entries key in if same k key then some v else rest

-- `d[key] = value`
unfoldable pub put {ℓ} : {A : Type ℓ} → List (List ℕ × A) → List ℕ → A → List (List ℕ × A)
put [] key value = (key, value) ∷ []
put ((k, v) ∷ entries) key value =
    let rest = put entries key value in if same k key then (k, value) ∷ entries else (k, v) ∷ rest

-- `key in d`
unfoldable pub is_key {ℓ} : {A : Type ℓ} → List (List ℕ × A) → List ℕ → Bool
is_key [] key = false
is_key ((k, v) ∷ entries) key = let rest = is_key entries key in same k key || rest

-- `name in names`
unfoldable pub is_in : List ℕ → List (List ℕ) → Bool
is_in name [] = false
is_in name (n ∷ names) = let rest = is_in name names in same n name || rest

pub record VirtualFileSystem : Type 0 where
  pub current_drive : List ℕ
  pub current_path : List ℕ
  pub directories : List (List ℕ × List (List ℕ))
  pub files : List (List ℕ × List ℕ)

abbrev pub full_path : VirtualFileSystem → List ℕ → List ℕ
full_path s path = s.current_drive ++ s.current_path ++ path

-- `none` for a call without a path.
unfoldable pub list_directory : VirtualFileSystem → Option (List ℕ) → List (List ℕ)
list_directory s path =
    let at : List ℕ = elim path [ none ↦ s.current_drive ++ s.current_path | some p ↦ p ] in
    elim (get s.directories at) [ none ↦ [] | some children ↦ children ]

-- The path without its last name, with a slash in front.
unfoldable pub above : List ℕ → List ℕ
above path =
    let p = join (all_but_last (split (strip path))) in if starts_with_slash p then p else slash ∷ p

unfoldable pub change_directory : VirtualFileSystem → List ℕ → Bool × VirtualFileSystem
unfolding above
change_directory s path =
    if same path (b'.' ∷ b'.' ∷ [])
    then (
      true,
      if same s.current_path (slash ∷ [])
          then s
          else record s { current_path = above s.current_path },
    )
    else if same path (slash ∷ [])
    then (true, record s { current_path = slash ∷ [] })
    else if same path (b'.' ∷ [])
    then (true, s)
    else if is_key s.directories (full_path s path)
    then (true, record s { current_path = rstrip s.current_path ++ slash ∷ path })
    else (false, s)

unfoldable pub get_file_content : VirtualFileSystem → List ℕ → Option (List ℕ)
get_file_content s path = get s.files (full_path s path)

-- `'/'.join(full_path.split('/')[:-1])` and `full_path.split('/')[-1]`
abbrev pub parent_path : List ℕ → List ℕ
parent_path path = join (all_but_last (split path))

abbrev pub file_name : List ℕ → List ℕ
file_name path = last (split path)

-- The children of the parent with one more, if there is such a directory and it has not this child.
unfoldable pub add_child :
    List (List ℕ × List (List ℕ)) → (parent name : List ℕ) → List (List ℕ × List (List ℕ))
add_child directories parent name = elim (get directories parent) [
  | none ↦ directories
  | some children ↦
      if is_in name children then directories else put directories parent (children ++ name ∷ [])
]

unfoldable pub create_file : VirtualFileSystem → (path content : List ℕ) → Bool × VirtualFileSystem
create_file s path content =
    let full = full_path s path in
    (
      true,
      record s {
        files = put s.files full content;
        directories = add_child s.directories (parent_path full) (file_name full);
      },
    )

unfoldable pub create_directory : VirtualFileSystem → (path : List ℕ) → Bool × VirtualFileSystem
create_directory s path =
    let full = full_path s path in
    (true, record s { directories = add_child (put s.directories full []) (parent_path full) path })
