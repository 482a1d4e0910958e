-- ===== src/Avl/Rename.antt =====
-- `avl_replace_node`: the shape stays, and one address is renamed.
use mathlib.Core.Option
use mathlib.Core.List.{map-append}
use libls.Prelude.{
  ℕ, ◌≡◌, refl, sym, ap, ◌∙◌, false, Option, List, [], ◌∷◌, ◌++◌, map, arith, ◌==◌, ==_refl,
  if◌then◌else◌,
}
use libls.Avl.{Balance, Tree, leaf, node, inorder, avl_replace_node}
use libls.Avl.Shape.{height, Tells, IsAvl}
use libls.Avl.Insert.{Ordered}
use libls.Avl.Unlink.{mem}

-- The replacement renames one address.
abbrev pub renamed : ℕ → ℕ → ℕ → ℕ
renamed x y z = if z == x then y else z

pub height-replace : (x y : ℕ) (t : Tree) → height (avl_replace_node x y t) ≡ height t
unfolding avl_replace_node
height-replace x y leaf = refl
height-replace x y (node b l z r) = omega (arith, height-replace x y l, height-replace x y r)

Tells-eq : (b : Balance) (l r m n : ℕ) → l ≡ m → r ≡ n → Tells b m n → Tells b l r
Tells-eq b l r m n e f t = rw (e, f) t

pub IsAvl-replace : (x y : ℕ) (t : Tree) → IsAvl t → IsAvl (avl_replace_node x y t)
unfolding avl_replace_node
IsAvl-replace x y leaf a = tt
IsAvl-replace x y (node b l z r) (al, ar, d) = (
  IsAvl-replace x y l al,
  IsAvl-replace x y r ar,
  Tells-eq b _ _ _ _ (height-replace x y l) (height-replace x y r) d,
)

pub inorder-replace :
    (x y : ℕ) (t : Tree) → inorder (avl_replace_node x y t) ≡ map (renamed x y) (inorder t)
unfolding avl_replace_node inorder
inorder-replace x y leaf = refl
inorder-replace x y (node b l z r) =
    rw (inorder-replace x y l, inorder-replace x y r)
      (sym (map-append (renamed x y) (inorder l) (z ∷ inorder r)))

map-renamed : (x y : ℕ) (zs : List ℕ) → mem x zs ≡ false → map (renamed x y) zs ≡ zs
map-renamed x y [] h = refl
map-renamed x y (z ∷ zs) h = ground (arith, map-renamed x y zs)

-- A renamed address in the middle.
pub map-middle :
    (x y : ℕ) (xs ys : List ℕ)
    → mem x xs ≡ false
    → mem x ys ≡ false
    → map (renamed x y) (xs ++ x ∷ ys) ≡ xs ++ y ∷ ys
map-middle x y xs ys p q =
    map-append (renamed x y) xs (x ∷ ys)
    ∙ rw (map-renamed x y xs p, map-renamed x y ys q) (ground (arith, ==_refl x))

-- A tree of addresses, with one of them renamed.
pub Ordered-replace :
    (x y : ℕ) (xs : List ℕ) (m : Option Tree)
    → Ordered xs m
    → Ordered (map (renamed x y) xs) (Option.map (avl_replace_node x y) m)
Ordered-replace x y xs m (t, run, a, o) = (
  avl_replace_node x y t,
  ap (Option.map (avl_replace_node x y)) run,
  IsAvl-replace x y t a,
  inorder-replace x y t ∙ ap (map (renamed x y)) o,
)
