-- ===== src/Links/Walk/Postorder.antt =====
-- `first_postorder` and `next_postorder` visit each node behind its children.
use mathlib.Core.Option
use mathlib.Core.List.{append_assoc, append-nil}
use libls.Prelude.{
  ℕ, zero, suc, ◌<◌, ◌≡◌, refl, sym, ap, ◌∙◌, some, List, [], ◌∷◌, ◌++◌, length, arith,
}
use libls.Links.{Linked, leaf, node, from_left, from_right, Above, plug}
use libls.Links.Walk.{left_deepest, parent, first_postorder, next_postorder, visited}

-- The addresses of a tree, children first: the order that the iteration is named for.
abbrev pub postorder : {B : Type 0} → Linked B → List ℕ
postorder leaf = []
postorder (node b l x r) = postorder l ++ (postorder r ++ x ∷ [])

-- What is left to visit behind a subtree.
abbrev pub behind_post : {B : Type 0} → Above B → List ℕ
behind_post [] = []
behind_post (from_left b x r ∷ up) = postorder r ++ x ∷ behind_post up
behind_post (from_right b l x ∷ up) = x ∷ behind_post up

-- The pointer leads into the tree `whole`, with the addresses `rest` from its node on.
abbrev pub PostAt : {B : Type 0} → Linked B → List ℕ → Linked B × Above B → Type 0
PostAt whole rest (leaf, up) = rest ≡ []
PostAt whole rest (node b l x r, up) =
    (plug (node b l x r) up ≡ whole) × (x ∷ behind_post up ≡ rest)

PostAt-eq :
    {B : Type 0} {v w : Linked B} {r s : List ℕ} (p : Linked B × Above B)
    → v ≡ w
    → r ≡ s
    → PostAt v r p
    → PostAt w s p
PostAt-eq (leaf, up) ew er a = sym er ∙ a
PostAt-eq (node b l x r, up) ew er (a, d) = (a ∙ ew, d ∙ er)

-- Going down from a node finds the first address of its subtree.
abbrev Deepest : {B : Type 0} → Linked B → Above B → Type 0
Deepest leaf up = Unit
Deepest (node b l x r) up =
    PostAt (plug (node b l x r) up) (postorder (node b l x r) ++ behind_post up)
      (left_deepest (node b l x r) up)

left-Deepest : {B : Type 0} (t : Linked B) (up : Above B) → Deepest t up
unfolding left_deepest plug
left-Deepest leaf up = tt
left-Deepest (node b (node c ll y lr) x r) up =
    PostAt-eq (left_deepest (node c ll y lr) (from_left b x r ∷ up)) refl (simp append_assoc)
      (left-Deepest (node c ll y lr) (from_left b x r ∷ up))
left-Deepest (node b leaf x (node c rl y rr)) up =
    PostAt-eq (left_deepest (node c rl y rr) (from_right b leaf x ∷ up)) refl (simp append_assoc)
      (left-Deepest (node c rl y rr) (from_right b leaf x ∷ up))
left-Deepest (node b leaf x leaf) up = (refl, refl)

-- `next_postorder` at a node goes to the address that follows it when the children of each node
-- come first, and gives the null pointer at the root.
pub next_postorder-PostAt :
    {B : Type 0} (b : B) (l : Linked B) (x : ℕ) (r : Linked B) (up : Above B)
    → PostAt (plug (node b l x r) up) (behind_post up) (next_postorder (node b l x r) up)
unfolding next_postorder parent plug
next_postorder-PostAt b l x r [] = refl
next_postorder-PostAt b l x r (from_right c pl y ∷ up) = (refl, refl)
next_postorder-PostAt b l x r (from_left c y leaf ∷ up) = (refl, refl)
next_postorder-PostAt b l x r (from_left c y (node d rl z rr) ∷ up) =
    PostAt-eq (left_deepest (node d rl z rr) (from_right c (node b l x r) y ∷ up)) refl refl
      (left-Deepest (node d rl z rr) (from_right c (node b l x r) y ∷ up))

visited-PostAt :
    {B : Type 0} (n : ℕ) (whole : Linked B) (rest : List ℕ) (p : Linked B × Above B)
    → PostAt whole rest p
    → length rest < n
    → visited next_postorder n p ≡ some rest
unfolding visited
visited-PostAt zero whole rest p a h = absurd (omega arith)
visited-PostAt (suc n) whole rest (leaf, up) a h = ap some (sym a)
visited-PostAt (suc n) whole rest (node b l x r, up) (a, d) h =
    ap (Option.map (λ t. x ∷ t)) (
      visited-PostAt n _ (behind_post up) (next_postorder (node b l x r) up)
        (next_postorder-PostAt b l x r up) (omega (arith, ap length d)))
    ∙ ap some d

-- The loop of `avl_postorder_for_each_entry_safe` visits every node once, behind its children, and ends
-- at the null pointer then.
pub first_postorder-visited :
    {B : Type 0} (t : Linked B)
    → visited next_postorder (suc (length (postorder t))) (first_postorder t) ≡ some (postorder t)
unfolding first_postorder plug
first_postorder-visited leaf = unfold visited in refl
first_postorder-visited (node b l x r) =
    visited-PostAt _ (node b l x r) _ (left_deepest (node b l x r) [])
      (PostAt-eq (left_deepest (node b l x r) []) refl (append-nil (postorder (node b l x r)))
        (left-Deepest (node b l x r) []))
      (omega arith)
