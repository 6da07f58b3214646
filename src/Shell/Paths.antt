-- ===== src/Shell/Paths.antt =====
-- shell.py: the current directory as a list of names.
use ea_x.Prelude.{
  ℕ, ◌≡◌, refl, sym, ap, ◌∙◌, inl, inr, Bool, true, false, List, [], ◌∷◌, ◌++◌, if◌then◌else◌,
  Bool-cases,
}
use ea_x.Shell.Texts.{slash, same, lstrip, rstrip, strip, join, all_but_last}
use ea_x.Shell.Words.{
  lstrip_word, rstrip_word, ends_with_slash, IsName, AllNames, all_but_last-AllNames,
  append-AllNames, join_starts, join_cons, join_ends, split-join, join-append,
}
use ea_x.Shell.{VirtualFileSystem, is_key, full_path, above, change_directory}

abbrev pub path_of : List (List ℕ) → List ℕ
path_of ws = slash ∷ join ws

pub data Step : Type 0 where
  up root here : Step
  into : (name : List ℕ) → Step

abbrev pub text_of : Step → List ℕ
text_of up = b'.' ∷ b'.' ∷ []
text_of root = slash ∷ []
text_of here = b'.' ∷ []
text_of (into name) = name

-- A name has no slash, and is neither "." nor "..".
abbrev pub IsStep : Step → Type 0
IsStep (into name) =
    IsName name × (same name (text_of up) ≡ false) × (same name (text_of here) ≡ false)
IsStep _ = Unit {0}

-- The directory of a name is looked for at the current path with the name right behind it.
abbrev pub is_there : VirtualFileSystem → List (List ℕ) → List ℕ → Bool
is_there s ws name = is_key s.directories (s.current_drive ++ path_of ws ++ name)

unfoldable pub goes : VirtualFileSystem → List (List ℕ) → Step → Bool
goes s ws (into name) = is_there s ws name
goes s ws _ = true

unfoldable pub walk : VirtualFileSystem → List (List ℕ) → Step → List (List ℕ)
walk s ws up = all_but_last ws
walk s ws root = []
walk s ws here = ws
walk s ws (into name) = if is_there s ws name then ws ++ name ∷ [] else ws

strip-path_of :
    (w : List ℕ) (ws : List (List ℕ)) → AllNames (w ∷ ws) → strip (path_of (w ∷ ws)) ≡ join (w ∷ ws)
unfolding strip lstrip
strip-path_of w ws v =
    rw (lstrip_word (join (w ∷ ws)) (join_starts (w ∷ ws) v))
      (rstrip_word (join (w ∷ ws)) (join_ends (w ∷ ws) v))

above-path_of :
    (w : List ℕ) (ws : List (List ℕ))
    → AllNames (w ∷ ws)
    → above (path_of (w ∷ ws)) ≡ path_of (all_but_last (w ∷ ws))
unfolding above
above-path_of w ws v =
    let names = all_but_last-AllNames (w ∷ ws) v in
    rw (strip-path_of w ws v, split-join w ws v, join_starts (all_but_last (w ∷ ws)) names) refl

ends_with_slash-path_of :
    (w : List ℕ) (ws : List (List ℕ))
    → AllNames (w ∷ ws)
    → ends_with_slash (path_of (w ∷ ws)) ≡ false
unfolding ends_with_slash
ends_with_slash-path_of w ws v =
    let (c, cs, e) = join_cons w ws v in rw e (rw e at (join_ends (w ∷ ws) v))

-- A name behind the current path.
rstrip-path_of :
    (ws : List (List ℕ)) (name : List ℕ)
    → AllNames ws
    → rstrip (path_of ws) ++ (slash ∷ name) ≡ path_of (ws ++ name ∷ [])
rstrip-path_of [] name v = unfold rstrip join in refl
rstrip-path_of (w ∷ ws) name v =
    rw (rstrip_word (path_of (w ∷ ws)) (ends_with_slash-path_of w ws v))
      (ap (λ (p : List ℕ). slash ∷ p) (sym (join-append w ws name)))

-- Below the root the path is not that of the root.
path_of_root :
    (w : List ℕ) (ws : List (List ℕ))
    → AllNames (w ∷ ws)
    → same (path_of (w ∷ ws)) (slash ∷ []) ≡ false
unfolding same
path_of_root w ws v = let (c, cs, e) = join_cons w ws v in rw e refl

name_root : (name : List ℕ) → IsName name → same name (slash ∷ []) ≡ false
unfolding same
name_root [] v = absurd v
name_root (c ∷ cs) (other, v) = rw other refl

-- The current path is that of the names.
pub record IsAt (s : VirtualFileSystem) (ws : List (List ℕ)) : Type 0 where
  pub names : AllNames ws
  pub path : s.current_path ≡ path_of ws

change_root :
    (s : VirtualFileSystem)
    → s.current_path ≡ path_of []
    → change_directory s (text_of up) ≡ (true, s)
unfolding change_directory join same
change_root s e = rw e refl

change_up :
    (s : VirtualFileSystem)
    → same s.current_path (slash ∷ []) ≡ false
    → change_directory s (text_of up) ≡ (true, record s { current_path = above s.current_path })
unfolding change_directory same
change_up s e = rw e refl

change_into :
    (s : VirtualFileSystem) (name : List ℕ)
    → IsStep (into name)
    → change_directory s name ≡ (
        if is_key s.directories (full_path s name)
        then (true, record s { current_path = rstrip s.current_path ++ (slash ∷ name) })
        else (false, s))
unfolding change_directory
change_into s name (word, not_up, not_here) = rw (not_up, name_root name word, not_here) refl

pub step-IsAt :
    (s : VirtualFileSystem) (ws : List (List ℕ)) (st : Step)
    → IsAt s ws
    → IsStep st
    → let (done, s') = change_directory s (text_of st) in
      (done ≡ goes s ws st)
      × IsAt s' (walk s ws st)
      × (s'.directories ≡ s.directories)
      × (s'.current_drive ≡ s.current_drive)
unfolding goes walk
step-IsAt s [] up v t = rw (change_root s v.path) (refl, unfold all_but_last in v, refl, refl)
step-IsAt s (w ∷ ws) up v t = rw (change_up s (rw v.path (path_of_root w ws v.names))) (
  refl,
  record {
    names = all_but_last-AllNames (w ∷ ws) v.names;
    path = ap above v.path ∙ above-path_of w ws v.names;
  },
  refl,
  refl,
)
step-IsAt s ws root v t =
    unfold change_directory same in
    (refl, record { names = tt; path = unfold join in refl }, refl, refl)
step-IsAt s ws here v t = unfold change_directory same in (refl, v, refl, refl)
step-IsAt s ws (into name) v t =
    let at : full_path s name ≡ s.current_drive ++ path_of ws ++ name =
      ap (λ (p : List ℕ). s.current_drive ++ p ++ name) v.path in
    elim (Bool-cases (is_there s ws name)) [
      | inl there ↦
          rw (change_into s name t, at, there)
            (
              refl,
              record {
                names = append-AllNames ws name v.names t.0;
                path =
                    ap (λ (p : List ℕ). rstrip p ++ (slash ∷ name)) v.path
                    ∙ rstrip-path_of ws name v.names;
              },
              refl,
              refl,
            )
      | inr missing ↦ rw (change_into s name t, at, missing) (refl, v, refl, refl)
    ]

-- The calls of `change_directory`, and the names after them.
unfoldable pub run : VirtualFileSystem → List Step → VirtualFileSystem
run s [] = s
run s (st ∷ steps) = run (change_directory s (text_of st)).1 steps

unfoldable pub walk_all : VirtualFileSystem → List (List ℕ) → List Step → List (List ℕ)
walk_all s ws [] = ws
walk_all s ws (st ∷ steps) = walk_all s (walk s ws st) steps

abbrev pub AllSteps : List Step → Type 0
AllSteps [] = Unit {0}
AllSteps (st ∷ steps) = IsStep st × AllSteps steps

walk_same :
    (s s' : VirtualFileSystem) (ws : List (List ℕ)) (st : Step)
    → s'.directories ≡ s.directories
    → s'.current_drive ≡ s.current_drive
    → walk s' ws st ≡ walk s ws st
unfolding walk
walk_same s s' ws up e d = refl
walk_same s s' ws root e d = refl
walk_same s s' ws here e d = refl
walk_same s s' ws (into name) e d = rw (e, d) refl

walk_all_same :
    (s s' : VirtualFileSystem) (ws : List (List ℕ)) (steps : List Step)
    → s'.directories ≡ s.directories
    → s'.current_drive ≡ s.current_drive
    → walk_all s' ws steps ≡ walk_all s ws steps
unfolding walk_all
walk_all_same s s' ws [] e d = refl
walk_all_same s s' ws (st ∷ steps) e d =
    walk_all_same s s' (walk s' ws st) steps e d
    ∙ ap (λ vs. walk_all s vs steps) (walk_same s s' ws st e d)

-- `change_directory` implements a walk on lists of names: where the current path is the names with a
-- slash in front of each, it still is after any calls with "..", "/", "." or a name, which has no slash and
-- is neither ".." nor ".". ".." takes the last name away, "/" all, "." none, and a name is added if a
-- directory is known under the current path with the name right behind it, with no slash between; the
-- directories and the drive stay as they are.
pub run-walk_all :
    (s : VirtualFileSystem) (ws : List (List ℕ)) (steps : List Step)
    → IsAt s ws
    → AllSteps steps
    → let s' = run s steps in
      IsAt s' (walk_all s ws steps)
      × (s'.directories ≡ s.directories)
      × (s'.current_drive ≡ s.current_drive)
unfolding run walk_all
run-walk_all s ws [] v t = (v, refl, refl)
run-walk_all s ws (st ∷ steps) v (is_step, t) =
    let (done, v1, e1, d1) = step-IsAt s ws st v is_step in
    let s1 = (change_directory s (text_of st)).1 in
    let (v', e', d') = run-walk_all s1 (walk s ws st) steps v1 t in
    (rw (walk_all_same s s1 (walk s ws st) steps e1 d1) at v', e' ∙ e1, d' ∙ d1)
