-- ===== src/Shell/Texts.antt =====
-- shell.py: what it uses of Python's strings, as lists of characters.
use ea_x.Prelude.{
  ℕ, ◌≡◌, refl, ap, ◌∙◌, inl, inr, Bool, ◌&&◌, true, false, List, [], ◌∷◌, ◌++◌, ◌==◌,
  if◌then◌else◌, arith, Bool-cases,
}

abbrev pub slash : ℕ
slash = b'/'

-- `s == t`
unfoldable pub same : List ℕ → List ℕ → Bool
same [] [] = true
same [] (d ∷ ds) = false
same (c ∷ cs) [] = false
same (c ∷ cs) (d ∷ ds) = let rest = same cs ds in (c == d) && rest

-- `s.startswith('/')`
unfoldable pub starts_with_slash : List ℕ → Bool
starts_with_slash [] = false
starts_with_slash (c ∷ cs) = c == slash

-- `s.lstrip('/')`, `s.rstrip('/')` and `s.strip('/')`
unfoldable pub lstrip : List ℕ → List ℕ
lstrip [] = []
lstrip (c ∷ cs) = let rest = lstrip cs in if c == slash then rest else c ∷ cs

-- A character in front of what is left: a slash that nothing follows goes.
abbrev pub keep : ℕ → List ℕ → List ℕ
keep c [] = if c == slash then [] else c ∷ []
keep c (d ∷ ds) = c ∷ d ∷ ds

unfoldable pub rstrip : List ℕ → List ℕ
rstrip [] = []
rstrip (c ∷ cs) = keep c (rstrip cs)

unfoldable pub strip : List ℕ → List ℕ
strip cs = rstrip (lstrip cs)

-- `s.split('/')`
abbrev pub push : ℕ → List (List ℕ) → List (List ℕ)
push c [] = (c ∷ []) ∷ []
push c (w ∷ ws) = (c ∷ w) ∷ ws

unfoldable pub split : List ℕ → List (List ℕ)
split [] = [] ∷ []
split (c ∷ cs) = let rest = split cs in if c == slash then [] ∷ rest else push c rest

-- `'/'.join(words)`
unfoldable pub join : List (List ℕ) → List ℕ
join [] = []
join (w ∷ []) = w
join (w ∷ v ∷ vs) = w ++ slash ∷ join (v ∷ vs)

-- `words[:-1]` and `words[-1]`
unfoldable pub all_but_last : List (List ℕ) → List (List ℕ)
all_but_last [] = []
all_but_last (w ∷ []) = []
all_but_last (w ∷ v ∷ vs) = w ∷ all_but_last (v ∷ vs)

unfoldable pub last : List (List ℕ) → List ℕ
last [] = []
last (w ∷ []) = w
last (w ∷ v ∷ vs) = last (v ∷ vs)

-- No character is a slash.
abbrev pub IsWord : List ℕ → Type 0
IsWord [] = Unit {0}
IsWord (c ∷ cs) = ((c == slash) ≡ false) × IsWord cs

pub same_refl : (cs : List ℕ) → same cs cs ≡ true
unfolding same
same_refl [] = refl
same_refl (c ∷ cs) = ground (arith, same_refl cs)

-- A text in front of both does not count.
pub same-append : (cs ds es : List ℕ) → same (cs ++ ds) (cs ++ es) ≡ same ds es
unfolding same
same-append [] ds es = refl
same-append (c ∷ cs) ds es = ground (arith, same-append cs ds es)

pub same_eq : (cs ds : List ℕ) → same cs ds ≡ true → cs ≡ ds
unfolding same
same_eq [] [] e = refl
same_eq [] (d ∷ ds) e = ground (arith, e)
same_eq (c ∷ cs) [] e = ground (arith, e)
same_eq (c ∷ cs) (d ∷ ds) e = elim (Bool-cases (c == d)) [
  | inl first ↦
      let first_same : c ≡ d = ground arith in
      rw first_same (ap (λ xs. d ∷ xs) (same_eq cs ds (rw first at e)))
  | inr other ↦ ground (arith, rw other at e)
]

-- What is longer is another text.
pub same_longer : (cs ds : List ℕ) (d : ℕ) → same cs (cs ++ d ∷ ds) ≡ false
unfolding same
same_longer [] ds d = refl
same_longer (c ∷ cs) ds d = ground (arith, same_longer cs ds d)

pub split_word : (ds : List ℕ) → IsWord ds → split ds ≡ ds ∷ []
unfolding split
split_word [] v = refl
split_word (c ∷ cs) (other, v) = rw (other, split_word cs v) refl

-- There is a first word.
split_cons : (cs : List ℕ) → (w : List ℕ) × (ws : List (List ℕ)) × (split cs ≡ w ∷ ws)
unfolding split
split_cons [] = ([], [], refl)
split_cons (c ∷ cs) =
    let (w, ws, e) = split_cons cs in
    elim (Bool-cases (c == slash)) [
      | inl end ↦ ([], split cs, rw end refl)
      | inr other ↦ (c ∷ w, ws, rw (other, e) refl)
    ]

split-append : (cs ds : List ℕ) → IsWord ds → split (cs ++ slash ∷ ds) ≡ split cs ++ ds ∷ []
unfolding split
split-append [] ds v = rw (split_word ds v) refl
split-append (c ∷ cs) ds v =
    let (w, ws, e) = split_cons cs in
    elim (Bool-cases (c == slash)) [
      | inl end ↦ rw (end, split-append cs ds v) refl
      | inr other ↦ rw (other, split-append cs ds v, e) refl
    ]

join-push : (c : ℕ) (w : List ℕ) (ws : List (List ℕ)) → join (push c (w ∷ ws)) ≡ c ∷ join (w ∷ ws)
unfolding join
join-push c w [] = refl
join-push c w (v ∷ vs) = refl

pub join-split : (cs : List ℕ) → join (split cs) ≡ cs
unfolding split join
join-split [] = refl
join-split (c ∷ cs) =
    let (w, ws, e) = split_cons cs in
    let rest = rw e at (join-split cs) in
    elim (Bool-cases (c == slash)) [
      | inl end ↦
          let same_char : c ≡ slash = ground arith in
          rw (end, same_char, e) (ap (λ ds. slash ∷ ds) rest)
      | inr other ↦ rw (other, e) (join-push c w ws ∙ ap (λ ds. c ∷ ds) rest)
    ]

pub all_but_last-append :
    (ws : List (List ℕ)) (w : List ℕ)
    → (all_but_last (ws ++ w ∷ []) ≡ ws) × (last (ws ++ w ∷ []) ≡ w)
unfolding all_but_last last
all_but_last-append [] w = (refl, refl)
all_but_last-append (v ∷ []) w = (refl, refl)
all_but_last-append (v ∷ u ∷ us) w =
    let (front, back) = all_but_last-append (u ∷ us) w in (ap (λ ws. v ∷ ws) front, back)

-- What stands in front of, and behind, the last slash.
pub cut_append :
    (cs ds : List ℕ)
    → IsWord ds
    → let words = split (cs ++ slash ∷ ds) in (join (all_but_last words) ≡ cs) × (last words ≡ ds)
cut_append cs ds v =
    let (front, back) = all_but_last-append (split cs) ds in
    rw (split-append cs ds v, front, back) (join-split cs, refl)
