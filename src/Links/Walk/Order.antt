-- ===== src/Links/Walk/Order.antt =====
-- `first` and `next` visit the nodes in the order of the tree, `last` and `prev` in
-- the opposite order.
use mathlib.Core.Option
use mathlib.Core.List.{append_assoc, append-nil, reverse, reverse-append}
use libls.Prelude.{
  ℕ, zero, suc, ◌<◌, ◌≡◌, refl, sym, ap, ◌∙◌, some, List, [], ◌∷◌, ◌++◌, length, length-append,
  arith,
}
use libls.Links.{Linked, leaf, node, from_left, from_right, Above, plug, inorder, before, behind}
use libls.Links.Walk.{
  left_most, right_most, first, last, next, prev, up_from_right, up_from_left, visited,
}

-- The pointer leads into the tree `whole`, the addresses `front` are before its node and `rest` are
-- those from its node on.
abbrev pub At : {B : Type 0} → Linked B → List ℕ → List ℕ → Linked B × Above B → Type 0
At whole front rest (leaf, up) = rest ≡ []
At whole front rest (node b l x r, up) =
    (plug (node b l x r) up ≡ whole)
    × (before up ++ inorder l ≡ front)
    × (x ∷ (inorder r ++ behind up) ≡ rest)

At-eq :
    {B : Type 0} {v w : Linked B} {f g r s : List ℕ} (p : Linked B × Above B)
    → v ≡ w
    → f ≡ g
    → r ≡ s
    → At v f r p
    → At w g s p
At-eq (leaf, up) ew ef er a = sym er ∙ a
At-eq (node b l x r, up) ew ef er (a, c, d) = (a ∙ ew, c ∙ ef, d ∙ er)

left_most-At :
    {B : Type 0} (b : B) (l : Linked B) (x : ℕ) (r : Linked B) (up : Above B)
    → At
        (plug (node b l x r) up)
        (before up)
        (inorder (node b l x r) ++ behind up)
        (left_most (node b l x r) up)
unfolding left_most inorder plug
left_most-At b leaf x r up = (refl, append-nil (before up), refl)
left_most-At b (node c ll y lr) x r up =
    At-eq (left_most (node c ll y lr) (from_left b x r ∷ up)) refl refl (simp append_assoc)
      (left_most-At c ll y lr (from_left b x r ∷ up))

up_from_right-At :
    {B : Type 0} (t : Linked B) (up : Above B)
    → At (plug t up) (before up ++ inorder t) (behind up) (up_from_right t up)
unfolding up_from_right plug inorder
up_from_right-At t [] = refl
up_from_right-At t (from_left b x r ∷ up) = (refl, refl, refl)
up_from_right-At t (from_right b l x ∷ up) =
    At-eq (up_from_right (node b l x t) up) refl (simp append_assoc) refl
      (up_from_right-At (node b l x t) up)

-- `next` at a node goes to the address that follows in the order of the tree, and gives the null
-- pointer at the last one.
pub next-At :
    {B : Type 0} (b : B) (l : Linked B) (x : ℕ) (r : Linked B) (up : Above B)
    → At
        (plug (node b l x r) up)
        ((before up ++ inorder l) ++ x ∷ [])
        (inorder r ++ behind up)
        (next (node b l x r) up)
unfolding next plug inorder
next-At b l x leaf up =
    At-eq (up_from_right (node b l x leaf) up) refl
      (sym (append_assoc (before up) (inorder l) (x ∷ []))) refl
      (up_from_right-At (node b l x leaf) up)
next-At b l x (node c rl y rr) up =
    At-eq (left_most (node c rl y rr) (from_right b l x ∷ up)) refl
      (sym (append_assoc (before up) (inorder l) (x ∷ []))) refl
      (left_most-At c rl y rr (from_right b l x ∷ up))

visited-At :
    {B : Type 0} (n : ℕ) (whole : Linked B) (front rest : List ℕ) (p : Linked B × Above B)
    → At whole front rest p
    → length rest < n
    → visited next n p ≡ some rest
unfolding visited
visited-At zero whole front rest p a h = absurd (omega arith)
visited-At (suc n) whole front rest (leaf, up) a h = ap some (sym a)
visited-At (suc n) whole front rest (node b l x r, up) (a, c, d) h =
    ap (Option.map (λ t. x ∷ t)) (
      visited-At n _ _ (inorder r ++ behind up) (next (node b l x r) up) (next-At b l x r up)
        (omega (arith, ap length d)))
    ∙ ap some d

first-At : {B : Type 0} (t : Linked B) → At t [] (inorder t) (first t)
unfolding first plug inorder
first-At leaf = refl
first-At (node b l x r) =
    At-eq (left_most (node b l x r) []) refl refl (append-nil (inorder (node b l x r)))
      (left_most-At b l x r [])

-- The same from the other end: `rest` are the addresses up to the node, in the order of the tree.
abbrev pub Back : {B : Type 0} → Linked B → List ℕ → List ℕ → Linked B × Above B → Type 0
Back whole rest tail (leaf, up) = rest ≡ []
Back whole rest tail (node b l x r, up) =
    (plug (node b l x r) up ≡ whole)
    × ((before up ++ inorder l) ++ x ∷ [] ≡ rest)
    × (inorder r ++ behind up ≡ tail)

Back-eq :
    {B : Type 0} {v w : Linked B} {f g r s : List ℕ} (p : Linked B × Above B)
    → v ≡ w
    → f ≡ g
    → r ≡ s
    → Back v f r p
    → Back w g s p
Back-eq (leaf, up) ew ef er a = sym ef ∙ a
Back-eq (node b l x r, up) ew ef er (a, c, d) = (a ∙ ew, c ∙ ef, d ∙ er)

right_most-Back :
    {B : Type 0} (b : B) (l : Linked B) (x : ℕ) (r : Linked B) (up : Above B)
    → Back
        (plug (node b l x r) up)
        (before up ++ inorder (node b l x r))
        (behind up)
        (right_most (node b l x r) up)
unfolding right_most inorder plug
right_most-Back b l x leaf up = (refl, append_assoc (before up) (inorder l) (x ∷ []), refl)
right_most-Back b l x (node c rl y rr) up =
    Back-eq (right_most (node c rl y rr) (from_right b l x ∷ up)) refl (simp append_assoc) refl
      (right_most-Back c rl y rr (from_right b l x ∷ up))

up_from_left-Back :
    {B : Type 0} (t : Linked B) (up : Above B)
    → Back (plug t up) (before up) (inorder t ++ behind up) (up_from_left t up)
unfolding up_from_left plug inorder
up_from_left-Back t [] = refl
up_from_left-Back t (from_right b l x ∷ up) =
    (refl, append_assoc (before up) (inorder l) (x ∷ []), refl)
up_from_left-Back t (from_left b x r ∷ up) =
    Back-eq (up_from_left (node b t x r) up) refl refl (simp append_assoc)
      (up_from_left-Back (node b t x r) up)

-- `prev` at a node goes to the address before it in the order of the tree, and gives the null
-- pointer at the first one.
pub prev-Back :
    {B : Type 0} (b : B) (l : Linked B) (x : ℕ) (r : Linked B) (up : Above B)
    → Back
        (plug (node b l x r) up)
        (before up ++ inorder l)
        (x ∷ (inorder r ++ behind up))
        (prev (node b l x r) up)
unfolding prev plug inorder
prev-Back b leaf x r up =
    Back-eq (up_from_left (node b leaf x r) up) refl (sym (append-nil (before up))) refl
      (up_from_left-Back (node b leaf x r) up)
prev-Back b (node c ll y lr) x r up =
    Back-eq (right_most (node c ll y lr) (from_left b x r ∷ up)) refl refl refl
      (right_most-Back c ll y lr (from_left b x r ∷ up))

last-Back : {B : Type 0} (t : Linked B) → Back t (inorder t) [] (last t)
unfolding last plug inorder
last-Back leaf = refl
last-Back (node b l x r) =
    Back-eq (right_most (node b l x r) []) refl refl refl (right_most-Back b l x r [])

visited-Back :
    {B : Type 0} (n : ℕ) (whole : Linked B) (rest tail : List ℕ) (p : Linked B × Above B)
    → Back whole rest tail p
    → length rest < n
    → visited prev n p ≡ some (reverse rest)
unfolding visited
visited-Back zero whole rest tail p a h = absurd (omega arith)
visited-Back (suc n) whole rest tail (leaf, up) a h = ap (λ t. some (reverse t)) (sym a)
visited-Back (suc n) whole rest tail (node b l x r, up) (a, c, d) h =
    ap (Option.map (λ t. x ∷ t)) (
      visited-Back n _ (before up ++ inorder l) _ (prev (node b l x r) up) (prev-Back b l x r up)
        (omega (arith, ap length c, length-append (before up ++ inorder l) (x ∷ []))))
    ∙ ap some (sym (reverse-append (before up ++ inorder l) (x ∷ [])) ∙ ap reverse c)

-- Loops from `first` by `next`, and from `last` by `prev`, visit every node once, in
-- the order of the tree and in the opposite order, and end at the null pointer then.
pub next-visited :
    {B : Type 0} (t : Linked B)
    → (visited next (suc (length (inorder t))) (first t) ≡ some (inorder t))
      × (visited prev (suc (length (inorder t))) (last t) ≡ some (reverse (inorder t)))
next-visited t = (
  visited-At (suc (length (inorder t))) t [] (inorder t) (first t) (first-At t) (omega arith),
  visited-Back (suc (length (inorder t))) t (inorder t) [] (last t) (last-Back t) (omega arith),
)
