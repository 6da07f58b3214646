-- ===== src/Shell/Made.antt =====
-- shell.py: a new directory.
use ea_x.Prelude.{
  ℕ, ◌≡◌, refl, sym, ◌∙◌, inl, inr, ◌||◌, true, List, [], ◌∷◌, ◌++◌, arith, Bool-cases,
  Option-cases,
}
use ea_x.Shell.Texts.{same, same_refl, same_eq, all_but_last-append}
use ea_x.Shell.{
  get, put, is_key, is_in, VirtualFileSystem, full_path, change_directory, add_child,
  create_directory, parent_path,
}
use ea_x.Shell.Paths.{up, into, text_of, IsStep, IsAt, is_there, goes, walk, step-IsAt}

is_key-put {ℓ} :
    {A : Type ℓ} (entries : List (List ℕ × A)) (key q : List ℕ) (value : A)
    → is_key (put entries key value) q ≡ (same key q || is_key entries q)
unfolding is_key put
is_key-put [] key q value = refl
is_key-put ((k, v) ∷ entries) key q value = elim (Bool-cases (same k key)) [
  | inl e ↦ rw (e, same_eq k key e) (ground arith)
  | inr e ↦ rw e (ground (arith, is_key-put entries key q value))
]

add_child-is_key :
    (directories : List (List ℕ × List (List ℕ))) (parent name q : List ℕ)
    → is_key directories q ≡ true
    → is_key (add_child directories parent name) q ≡ true
unfolding add_child
add_child-is_key directories parent name q known = elim (Option-cases (get directories parent)) [
  | inl e ↦ rw (e, add_child) known
  | inr (children, e) ↦ elim (Bool-cases (is_in name children)) [
    | inl old ↦ rw (e, add_child, old) known
    | inr new ↦
        rw (e, add_child, new)
          (is_key-put directories parent q (children ++ name ∷ []) ∙ rw known (ground arith))
  ]
]

create_directory-is_key :
    (s : VirtualFileSystem) (name : List ℕ)
    → is_key (create_directory s name).1.directories (full_path s name) ≡ true
unfolding create_directory
create_directory-is_key s name =
    let full = full_path s name in
    add_child-is_key (put s.directories full []) (parent_path full) name full
      (is_key-put s.directories full full [] ∙ rw (same_refl full) refl)

create_directory-IsAt :
    (s : VirtualFileSystem) (ws : List (List ℕ)) (name : List ℕ)
    → IsAt s ws
    → IsAt (create_directory s name).1 ws × (is_there (create_directory s name).1 ws name ≡ true)
unfolding create_directory
create_directory-IsAt s ws name v =
    (record { names = v.names; path = v.path }, rw (sym v.path) (create_directory-is_key s name))

-- Where the current path is the names with a slash in front of each, `create_directory` of a name, which
-- has no slash and is neither ".." nor ".", makes a directory that `change_directory` then goes to, the
-- name behind the others; and ".." comes back. All three say that they have succeeded.
change_directory-create :
    (s : VirtualFileSystem) (ws : List (List ℕ)) (name : List ℕ)
    → IsAt s ws
    → IsStep (into name)
    → let (made, s1) = create_directory s name in
      let (went, s2) = change_directory s1 name in
      let (back, s3) = change_directory s2 (text_of up) in
      (made ≡ true) × (went ≡ true) × IsAt s2 (ws ++ name ∷ []) × (back ≡ true) × IsAt s3 ws
change_directory-create s ws name v is_name =
    let s1 = (create_directory s name).1 in
    let (v1, there) = create_directory-IsAt s ws name v in
    let (went, v2, e2, d2) = step-IsAt s1 ws (into name) v1 is_name in
    let s2 = (change_directory s1 name).1 in
    let walked : walk s1 ws (into name) ≡ ws ++ name ∷ [] = unfold walk in rw there refl in
    let at2 : IsAt s2 (ws ++ name ∷ []) = rw walked at v2 in
    let (back, v3, e3, d3) = step-IsAt s2 (ws ++ name ∷ []) up at2 tt in
    let popped : walk s2 (ws ++ name ∷ []) up ≡ ws =
      unfold walk in (all_but_last-append ws name).0 in
    (
      unfold create_directory in refl,
      went ∙ (unfold goes in there),
      at2,
      back ∙ (unfold goes in refl),
      rw popped at v3,
    )
