-- ===== src/Shell/Words.antt =====
-- shell.py: paths that are names with a slash between any two.
use mathlib.Core.List.{append_assoc}
use ea_x.Prelude.{ℕ, ◌≡◌, refl, sym, ap, ◌∙◌, Bool, false, List, [], ◌∷◌, ◌++◌, ◌==◌}
use ea_x.Shell.Texts.{
  slash, starts_with_slash, lstrip, rstrip, split, join, all_but_last, IsWord, split_word,
}

pub lstrip_word : (cs : List ℕ) → starts_with_slash cs ≡ false → lstrip cs ≡ cs
unfolding lstrip starts_with_slash
lstrip_word [] e = refl
lstrip_word (c ∷ cs) e = rw e refl

-- A text that does not end in a slash.
unfoldable pub ends_with_slash : List ℕ → Bool
ends_with_slash [] = false
ends_with_slash (c ∷ []) = c == slash
ends_with_slash (c ∷ d ∷ ds) = ends_with_slash (d ∷ ds)

pub rstrip_word : (cs : List ℕ) → ends_with_slash cs ≡ false → rstrip cs ≡ cs
unfolding rstrip ends_with_slash
rstrip_word [] e = refl
rstrip_word (c ∷ []) e = rw e refl
rstrip_word (c ∷ d ∷ ds) e = rw (rstrip_word (d ∷ ds) e, rstrip) refl

ends_with_slash-append :
    (cs : List ℕ) (d : ℕ) (ds : List ℕ)
    → ends_with_slash (cs ++ (d ∷ ds)) ≡ ends_with_slash (d ∷ ds)
unfolding ends_with_slash
ends_with_slash-append [] d ds = refl
ends_with_slash-append (c ∷ []) d ds = refl
ends_with_slash-append (c ∷ b ∷ cs) d ds = ends_with_slash-append (b ∷ cs) d ds

ends_with_slash_word : (cs : List ℕ) → IsWord cs → ends_with_slash cs ≡ false
unfolding ends_with_slash
ends_with_slash_word [] v = refl
ends_with_slash_word (c ∷ []) (other, v) = other
ends_with_slash_word (c ∷ d ∷ ds) (other, v) = ends_with_slash_word (d ∷ ds) v

-- A word that has a character.
abbrev pub IsName : List ℕ → Type 0
IsName [] = ⊥
IsName (c ∷ cs) = IsWord (c ∷ cs)

abbrev pub AllNames : List (List ℕ) → Type 0
AllNames [] = Unit {0}
AllNames (w ∷ ws) = IsName w × AllNames ws

pub IsName-IsWord : (w : List ℕ) → IsName w → IsWord w
IsName-IsWord [] v = tt
IsName-IsWord (c ∷ cs) v = v

pub all_but_last-AllNames : (ws : List (List ℕ)) → AllNames ws → AllNames (all_but_last ws)
unfolding all_but_last
all_but_last-AllNames [] v = tt
all_but_last-AllNames (w ∷ []) v = tt
all_but_last-AllNames (w ∷ u ∷ us) (name, v) = (name, all_but_last-AllNames (u ∷ us) v)

pub append-AllNames :
    (ws : List (List ℕ)) (w : List ℕ) → AllNames ws → IsName w → AllNames (ws ++ w ∷ [])
append-AllNames [] w v name = (name, tt)
append-AllNames (u ∷ us) w (first, v) name = (first, append-AllNames us w v name)

pub join_starts : (ws : List (List ℕ)) → AllNames ws → starts_with_slash (join ws) ≡ false
unfolding join starts_with_slash
join_starts [] v = refl
join_starts ([] ∷ ws) (name, v) = absurd name
join_starts ((c ∷ cs) ∷ []) ((other, name), v) = other
join_starts ((c ∷ cs) ∷ u ∷ us) ((other, name), v) = other

pub join_cons :
    (w : List ℕ) (ws : List (List ℕ))
    → AllNames (w ∷ ws)
    → (c : ℕ) × (cs : List ℕ) × (join (w ∷ ws) ≡ c ∷ cs)
unfolding join
join_cons [] ws (name, v) = absurd name
join_cons (c ∷ cs) [] v = (c, cs, refl)
join_cons (c ∷ cs) (u ∷ us) v = (c, cs ++ (slash ∷ join (u ∷ us)), refl)

pub join_ends : (ws : List (List ℕ)) → AllNames ws → ends_with_slash (join ws) ≡ false
unfolding join ends_with_slash
join_ends [] v = refl
join_ends (w ∷ []) (name, v) = ends_with_slash_word w (IsName-IsWord w name)
join_ends (w ∷ u ∷ us) (name, v) =
    let (c, cs, e) = join_cons u us v in
    let rest = rw e at (join_ends (u ∷ us) v) in
    rw e (ends_with_slash-append w slash (c ∷ cs) ∙ rest)

split_prepend : (w cs : List ℕ) → IsWord w → split (w ++ (slash ∷ cs)) ≡ w ∷ split cs
unfolding split
split_prepend [] cs v = refl
split_prepend (c ∷ w) cs (other, v) = rw (other, split_prepend w cs v) refl

pub split-join :
    (w : List ℕ) (ws : List (List ℕ)) → AllNames (w ∷ ws) → split (join (w ∷ ws)) ≡ w ∷ ws
unfolding join
split-join w [] (name, v) = split_word w (IsName-IsWord w name)
split-join w (u ∷ us) (name, v) =
    split_prepend w (join (u ∷ us)) (IsName-IsWord w name) ∙ ap (λ vs. w ∷ vs) (split-join u us v)

pub join-append :
    (w : List ℕ) (ws : List (List ℕ)) (d : List ℕ)
    → join ((w ∷ ws) ++ d ∷ []) ≡ join (w ∷ ws) ++ (slash ∷ d)
unfolding join
join-append w [] d = refl
join-append w (u ∷ us) d =
    ap (λ (r : List ℕ). w ++ (slash ∷ r)) (join-append u us d)
    ∙ sym (append_assoc w (slash ∷ join (u ∷ us)) (slash ∷ d))
