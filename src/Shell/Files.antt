-- ===== src/Shell/Files.antt =====
-- shell.py: what a new file changes.
use mathlib.Core.List.{append_assoc}
use ea_x.Prelude.{
  ℕ, ◌≡◌, refl, sym, ap, ◌∙◌, inl, inr, Bool, true, false, Option, none, some, List, [], ◌∷◌, ◌++◌,
  if◌then◌else◌, Bool-cases, Option-cases,
}
use ea_x.Shell.Texts.{slash, same, same_eq, same-append, same_longer, IsWord, cut_append}
use ea_x.Shell.{
  get, put, is_in, VirtualFileSystem, full_path, list_directory, get_file_content, add_child,
  create_file,
}

pub get-put {ℓ} :
    {A : Type ℓ} (entries : List (List ℕ × A)) (key q : List ℕ) (value : A)
    → get (put entries key value) q ≡ (if same key q then some value else get entries q)
unfolding get put
get-put [] key q value = refl
get-put ((k, v) ∷ entries) key q value = elim (Bool-cases (same k key)) [
  | inl e ↦
      let k_key : k ≡ key = same_eq k key e in
      elim (Bool-cases (same key q)) [
        | inl hit ↦ rw (e, k_key, hit) refl
        | inr miss ↦ rw (e, k_key, miss) refl
      ]
  | inr e ↦ elim (Bool-cases (same key q)) [
    | inl hit ↦
        let key_q : key ≡ q = same_eq key q hit in
        let k_q : same k q ≡ false = rw key_q at e in
        rw (e, k_q, hit) (get-put entries key q value ∙ rw hit refl)
    | inr miss ↦
        rw (e, miss)
          (elim (Bool-cases (same k q)) [
            | inl first ↦ rw first refl
            | inr other ↦ rw other (get-put entries key q value ∙ rw miss refl)
          ])
  ]
]

-- The children with one more, if it is not there yet.
abbrev pub with_child : List ℕ → List (List ℕ) → List (List ℕ)
with_child name children = if is_in name children then children else children ++ name ∷ []

abbrev pub with_child_at : Bool → List ℕ → Option (List (List ℕ)) → Option (List (List ℕ))
with_child_at here name none = none
with_child_at here name (some children) = some (if here then with_child name children else children)

with_child_at-false : (name : List ℕ) (o : Option (List (List ℕ))) → with_child_at false name o ≡ o
with_child_at-false name none = refl
with_child_at-false name (some children) = refl

get-add_child :
    (directories : List (List ℕ × List (List ℕ))) (parent name q : List ℕ)
    → get (add_child directories parent name) q
      ≡ with_child_at (same parent q) name (get directories q)
unfolding add_child
get-add_child directories parent name q = elim (Bool-cases (same parent q)) [
  | inl here ↦
      let at : parent ≡ q = same_eq parent q here in
      rw here (elim (Option-cases (get directories q)) [
        | inl e ↦ rw (at, add_child, e) e
        | inr (children, e) ↦ elim (Bool-cases (is_in name children)) [
          | inl old ↦ rw (at, add_child, e, old) e
          | inr new ↦
              rw (at, add_child, e, new)
                (get-put directories parent q (children ++ name ∷ []) ∙ rw here refl)
        ]
      ])
  | inr apart ↦
      rw (apart, with_child_at-false name (get directories q))
        (elim (Option-cases (get directories parent)) [
          | inl e ↦ rw (e, add_child) refl
          | inr (children, e) ↦ elim (Bool-cases (is_in name children)) [
            | inl old ↦ rw (e, add_child, old) refl
            | inr new ↦
                rw (e, add_child, new)
                  (get-put directories parent q (children ++ name ∷ []) ∙ rw apart refl)
          ]
        ])
]

abbrev pub children_of : Option (List (List ℕ)) → List (List ℕ)
children_of none = []
children_of (some children) = children

list_directory-get :
    (s : VirtualFileSystem) (q : List ℕ)
    → list_directory s (some q) ≡ children_of (get s.directories q)
unfolding list_directory
list_directory-get s q = elim (Option-cases (get s.directories q)) [
  | inl e ↦ rw (e, list_directory) refl
  | inr (children, e) ↦ rw (e, list_directory) refl
]

list_directory_here :
    (s : VirtualFileSystem)
    → list_directory s none ≡ children_of (get s.directories (s.current_drive ++ s.current_path))
unfolding list_directory
list_directory_here s = list_directory-get s (s.current_drive ++ s.current_path)

module _ (s : VirtualFileSystem) (before dir path content : List ℕ)
    (at : s.current_path ≡ before ++ (slash ∷ dir)) (name : IsWord (dir ++ path)) where
  full_path_cut : full_path s path ≡ (s.current_drive ++ before) ++ (slash ∷ (dir ++ path))
  full_path_cut = rw at (
      ap (λ (p : List ℕ). p ++ path) (sym (append_assoc s.current_drive before (slash ∷ dir)))
      ∙ append_assoc (s.current_drive ++ before) (slash ∷ dir) path)

  get-create_file :
      (q : List ℕ)
      → get (create_file s path content).1.directories q
        ≡ with_child_at (same (s.current_drive ++ before) q) (dir ++ path) (get s.directories q)
  unfolding create_file
  get-create_file q =
      let (parent, last_name) = cut_append (s.current_drive ++ before) (dir ++ path) name in
      rw (full_path_cut, parent, last_name)
        (get-add_child s.directories (s.current_drive ++ before) (dir ++ path) q)

  -- The current directory is not the one above it.
  apart : same (s.current_drive ++ before) (s.current_drive ++ s.current_path) ≡ false
  apart =
      rw (at, sym (append_assoc s.current_drive before (slash ∷ dir)))
        (same_longer (s.current_drive ++ before) dir slash)

  -- Where the current path is some text, a slash and `dir`, and neither `dir` nor the name of the
  -- file has a slash: `create_file` says that it succeeded. `get_file_content` then gives the
  -- content under the same name, and under every other name what it gave. But the file is listed in
  -- the directory above, the text behind the drive, if there is one: with `dir` in front of its
  -- name, unless that name is listed there already. Every other listing stays, that of the current
  -- directory among them.
  pub create_file_lem :
      let (done, s') = create_file s path content in
      (done ≡ true)
      × ((other : List ℕ)
          → get_file_content s' other
            ≡ (if same path other then some content else get_file_content s other))
      × ((q : List ℕ)
          → list_directory s' (some q)
            ≡ children_of (
                with_child_at
                  (same (s.current_drive ++ before) q)
                  (dir ++ path)
                  (get s.directories q)))
      × (list_directory s' none ≡ list_directory s none)
  unfolding create_file get_file_content
  create_file_lem = (
    refl,
    λ other.
        get-put s.files (full_path s path) (full_path s other) content
        ∙ rw (same-append (s.current_drive ++ s.current_path) path other) refl,
    λ q. list_directory-get (create_file s path content).1 q ∙ ap children_of (get-create_file q),
    list_directory_here (create_file s path content).1
        ∙ ap children_of (get-create_file (s.current_drive ++ s.current_path))
        ∙ rw
            (
              apart,
              with_child_at-false (dir ++ path)
                  (get s.directories (s.current_drive ++ s.current_path)),
            )
            (sym (list_directory_here s)),
  )
