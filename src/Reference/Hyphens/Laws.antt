-- ===== src/Reference/Hyphens/Laws.antt =====
-- Grouping, joining and splitting (reference.ts) undo one another.
use identifold.Prelude.{
  ℕ, ◌+◌, ◌*◌, ◌≤◌, ◌≡◌, ◌≢◌, refl, ap, sym, ◌∙◌, Bool, true, not, List, [], ◌∷◌, ◌++◌, map, arith,
  length, length-append, all, all-append, All, Text, text_eq_refl, ◌==◌, append_assoc, append-nil,
}
use identifold.Errors.{ok}
use identifold.Registry.{whole}
use identifold.Reference.Hyphens.{
  hyphen, remove_hyphens, split_hyphens, join_hyphens, groups, group_lengths, check_groups,
  validate_hyphenation,
}

abbrev pub no_hyphen : ℕ → Bool
no_hyphen c = not (c == hyphen)

pub remove_hyphens-append :
    (a b : Text) → remove_hyphens (a ++ b) ≡ remove_hyphens a ++ remove_hyphens b
unfolding remove_hyphens
remove_hyphens-append [] b = refl
remove_hyphens-append (c ∷ a) b = ground (arith, remove_hyphens-append a b)

pub remove_hyphens_of_none : (s : Text) → all no_hyphen s ≡ true → remove_hyphens s ≡ s
unfolding remove_hyphens
remove_hyphens_of_none [] h = refl
remove_hyphens_of_none (c ∷ s) h = ground (arith, remove_hyphens_of_none s)

-- No hyphen is left.
no_hyphen-remove_hyphens : (s : Text) → all no_hyphen (remove_hyphens s) ≡ true
unfolding remove_hyphens
no_hyphen-remove_hyphens [] = refl
no_hyphen-remove_hyphens (c ∷ s) = ground (arith, no_hyphen-remove_hyphens s)

remove-join-cons :
    (part : Text) (parts : List Text)
    → remove_hyphens (join_hyphens (part ∷ parts))
      ≡ remove_hyphens part ++ remove_hyphens (join_hyphens parts)
unfolding join_hyphens remove_hyphens
remove-join-cons part [] = sym (append-nil (remove_hyphens part))
remove-join-cons part (next ∷ parts) = rw remove_hyphens-append

-- Grouping adds hyphens and nothing else.
pub remove-join-groups : (s : Text) → remove_hyphens (join_hyphens (groups s)) ≡ remove_hyphens s
unfolding groups
remove-join-groups [] = unfold join_hyphens in refl
remove-join-groups (a ∷ b ∷ c ∷ d ∷ s) =
    remove-join-cons (a ∷ b ∷ c ∷ d ∷ []) (groups s)
    ∙ ap (λ t. remove_hyphens (a ∷ b ∷ c ∷ d ∷ []) ++ t) (remove-join-groups s)
    ∙ sym (remove_hyphens-append (a ∷ b ∷ c ∷ d ∷ []) s)
remove-join-groups (a ∷ []) = unfold join_hyphens in refl
remove-join-groups (a ∷ b ∷ []) = unfold join_hyphens in refl
remove-join-groups (a ∷ b ∷ c ∷ []) = unfold join_hyphens in refl

map-length-groups : (s : Text) → map length (groups s) ≡ group_lengths (length s)
unfolding groups group_lengths
map-length-groups [] = refl
map-length-groups (a ∷ b ∷ c ∷ d ∷ s) = ap (λ t. 4 ∷ t) (map-length-groups s)
map-length-groups (a ∷ []) = refl
map-length-groups (a ∷ b ∷ []) = refl
map-length-groups (a ∷ b ∷ c ∷ []) = refl

pub all-groups : (q : ℕ → Bool) (s : Text) → all q s ≡ true → All (λ g. all q g ≡ true) (groups s)
unfolding groups
all-groups q [] h = tt
all-groups q (a ∷ b ∷ c ∷ d ∷ s) h = (ground arith, all-groups q s (ground arith))
all-groups q (a ∷ []) h = (h, tt)
all-groups q (a ∷ b ∷ []) h = (h, tt)
all-groups q (a ∷ b ∷ c ∷ []) h = (h, tt)

pub split_of_none : (s : Text) → all no_hyphen s ≡ true → split_hyphens s ≡ s ∷ []
unfolding split_hyphens
split_of_none [] h = refl
split_of_none (c ∷ s) h = ground (arith, split_of_none s)

pub split-append :
    (s rest : Text)
    → all no_hyphen s ≡ true
    → split_hyphens (s ++ hyphen ∷ rest) ≡ s ∷ split_hyphens rest
unfolding split_hyphens
split-append [] rest h = refl
split-append (c ∷ s) rest h = ground (arith, split-append s rest)

-- Splitting what was joined, with one more part behind.
split-join :
    (part : Text) (parts : List Text) (last : Text)
    → All (λ g. all no_hyphen g ≡ true) (part ∷ parts)
    → all no_hyphen last ≡ true
    → split_hyphens (join_hyphens (part ∷ parts) ++ hyphen ∷ last) ≡ (part ∷ parts) ++ last ∷ []
unfolding join_hyphens
split-join part [] last h k = split-append part last h.0 ∙ ap (λ t. part ∷ t) (split_of_none last k)
split-join part (next ∷ parts) last h k =
    ap split_hyphens (append_assoc part _ (hyphen ∷ last))
    ∙ split-append part _ h.0
    ∙ ap (λ t. part ∷ t) (split-join next parts last h.1 k)

map-length-append :
    (gs : List Text) (g : Text) → map length (gs ++ g ∷ []) ≡ map length gs ++ length g ∷ []
map-length-append [] g = refl
map-length-append (x ∷ gs) g = ap (λ t. length x ∷ t) (map-length-append gs g)

pub check_groups_of_lengths :
    (body : Text) (expected : List ℕ)
    → map length (split_hyphens body) ≡ expected
    → check_groups body expected ≡ ok tt
unfolding check_groups
check_groups_of_lengths body expected h = rw (h, text_eq_refl expected) (ground arith)

groups_cons : (c : ℕ) (s : Text) → (g : Text) × (gs : List Text) × (groups (c ∷ s) ≡ g ∷ gs)
unfolding groups
groups_cons a (b ∷ c ∷ d ∷ s) = (_, _, refl)
groups_cons a [] = (_, _, refl)
groups_cons a (b ∷ []) = (_, _, refl)
groups_cons a (b ∷ c ∷ []) = (_, _, refl)

-- The groups that `formatReference` writes are those that `validateHyphenation` expects.
pub validate_hyphenation-groups :
    (s : Text) (check : ℕ)
    → s ≢ []
    → all no_hyphen s ≡ true
    → no_hyphen check ≡ true
    → validate_hyphenation (join_hyphens (groups s) ++ hyphen ∷ check ∷ []) (whole (length s))
      ≡ ok tt
validate_hyphenation-groups [] check f h k = absurd (f refl)
validate_hyphenation-groups (c ∷ s) check f h k =
    let (g, gs, e) = groups_cons c s in
    check_groups_of_lengths _ _ (
      rw e (
        ap (map length)
          (split-join g gs (check ∷ []) (rw e at (all-groups no_hyphen (c ∷ s) h)) (rw k))
        ∙ map-length-append (g ∷ gs) (check ∷ [])
        ∙ ap (λ t. t ++ 1 ∷ []) (rw e at (map-length-groups (c ∷ s)))))

pub all-join :
    (q : ℕ → Bool) (gs : List Text)
    → q hyphen ≡ true
    → All (λ g. all q g ≡ true) gs
    → all q (join_hyphens gs) ≡ true
unfolding join_hyphens
all-join q [] h k = refl
all-join q (g ∷ []) h k = k.0
all-join q (g ∷ next ∷ gs) h k =
    rw (all-append q g (hyphen ∷ join_hyphens (next ∷ gs)), k.0, h) (all-join q (next ∷ gs) h k.1)

length-join-cons :
    (g : Text) (gs : List Text)
    → length (join_hyphens (g ∷ gs)) ≤ length g + 1 + length (join_hyphens gs)
unfolding join_hyphens
length-join-cons g [] = omega arith
length-join-cons g (next ∷ gs) = omega (arith, length-append g (hyphen ∷ join_hyphens (next ∷ gs)))

pub length-join-groups : (s : Text) → length (join_hyphens (groups s)) ≤ 2 * length s
unfolding groups
length-join-groups [] = unfold join_hyphens in omega arith
length-join-groups (a ∷ b ∷ c ∷ d ∷ s) =
    omega (arith, length-join-cons (a ∷ b ∷ c ∷ d ∷ []) (groups s), length-join-groups s)
length-join-groups (a ∷ []) = unfold join_hyphens in omega arith
length-join-groups (a ∷ b ∷ []) = unfold join_hyphens in omega arith
length-join-groups (a ∷ b ∷ c ∷ []) = unfold join_hyphens in omega arith
