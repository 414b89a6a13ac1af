-- ===== src/RedBlack/Delete.antt =====
-- `fix_delete` and `infra_rbtree_remove` of infra/infra_ds.c, on the tree.
use ai_ppdb.Base.{
  ℕ, Bool, true, false, not, List, [], ◌∷◌, ◌++◌, Option, none, some, ◌&&◌, if◌then◌else◌,
}
use ai_ppdb.RedBlack.{
  Color, red, black, Entry, Tree, leaf, branch, Frame, on_left, on_right, plug, paint, eq_color,
  is_red, bind, rotate_left, rotate_right, descend,
}

-- The loop goes on from the parent, with this sibling, or ends with this in the parent's place.
pub data Settled : Type 0 where
  crashes : Settled
  moves turned : Tree → Settled

abbrev pub is_leaf : Tree → Bool
is_leaf leaf = true
is_leaf (branch c a e l r) = false

-- The last rotation for a left child: the parent has color `c`.
unfoldable pub turn_left : Color → ℕ → Entry → Tree → Option Tree → Option Tree
unfolding rotate_left
turn_left c a e t none = none
turn_left c a e t (some leaf) = none
turn_left c a e t (some (branch d b f l r)) =
    bind (paint black r) (λ r'. rotate_left (branch black a e t (branch c b f l r')))

unfoldable pub turn_right : Color → ℕ → Entry → Tree → Option Tree → Option Tree
unfolding rotate_right
turn_right c a e t none = none
turn_right c a e t (some leaf) = none
turn_right c a e t (some (branch d b f l r)) =
    bind (paint black l) (λ l'. rotate_right (branch black a e (branch c b f l' r) t))

abbrev pub ends_with : Option Tree → Settled
ends_with none = crashes
ends_with (some t) = turned t

-- One round for the left child `t` of a parent of color `c`, from the test of the sibling's children
-- on: both are read, and must not be NULL.
unfoldable pub settle_left : Color → ℕ → Entry → Tree → Tree → Settled
unfolding turn_left rotate_right
settle_left c a e t leaf = crashes
settle_left c a e t (branch d b f leaf r) = crashes
settle_left c a e t (branch d b f l leaf) = crashes
settle_left c a e t (branch d b f (branch x i u m n) (branch y j v o q)) =
    let l = branch x i u m n in
    let r = branch y j v o q in
    if eq_color x black && eq_color y black
    then moves (branch red b f l r)
    else if eq_color y black
    then ends_with (turn_left c a e t (rotate_right (branch red b f (branch black i u m n) r)))
    else ends_with (turn_left c a e t (some (branch d b f l r)))

unfoldable pub settle_right : Color → ℕ → Entry → Tree → Tree → Settled
unfolding turn_right rotate_left
settle_right c a e t leaf = crashes
settle_right c a e t (branch d b f leaf r) = crashes
settle_right c a e t (branch d b f l leaf) = crashes
settle_right c a e t (branch d b f (branch x i u m n) (branch y j v o q)) =
    let l = branch x i u m n in
    let r = branch y j v o q in
    if eq_color x black && eq_color y black
    then moves (branch red b f l r)
    else if eq_color x black
    then ends_with (turn_right c a e t (rotate_left (branch red b f l (branch black j v o q))))
    else ends_with (turn_right c a e t (some (branch d b f l r)))

-- The end of the loop, whose node the second argument makes of the sibling.
abbrev pub settled : Settled → (Tree → Option Tree) → List Frame → Option Tree
settled crashes up p = none
settled (moves s) up p = up s
settled (turned t) up p = paint black (plug t p)

-- A red sibling changes places with the parent, which becomes red; where the loop goes on from it,
-- that ends the loop.
unfoldable pub red_sibling_left : ℕ → Entry → Tree → Tree → List Frame → Option Tree
unfolding settle_left
red_sibling_left a e t leaf p = none
red_sibling_left a e t (branch d b f l r) p =
    let q = on_left black b f r ∷ p in
    settled (settle_left red a e t l) (λ s. some (plug (branch black a e t s) q)) q

unfoldable pub red_sibling_right : ℕ → Entry → Tree → Tree → List Frame → Option Tree
unfolding settle_right
red_sibling_right a e t leaf p = none
red_sibling_right a e t (branch d b f l r) p =
    let q = on_right black b f l ∷ p in
    settled (settle_right red a e t r) (λ s. some (plug (branch black a e s t) q)) q

-- The node is `t`, and is not NULL.
unfoldable pub fix_delete : Tree → List Frame → Option Tree
unfolding red_sibling_left red_sibling_right settle_left settle_right
fix_delete t [] = paint black t
fix_delete t (on_left c a e s ∷ p) =
    if is_red t
    then bind (paint black t) (λ u. some (plug u (on_left c a e s ∷ p)))
    else if is_red s
    then red_sibling_left a e t s p
    else settled (settle_left c a e t s) (λ s'. fix_delete (branch c a e t s') p) p
fix_delete t (on_right c a e s ∷ p) =
    if is_red t
    then bind (paint black t) (λ u. some (plug u (on_right c a e s ∷ p)))
    else if is_red s
    then red_sibling_right a e t s p
    else settled (settle_right c a e t s) (λ s'. fix_delete (branch c a e s' t) p) p

-- The node of the smallest key, and the way there.
unfoldable pub leftmost : Tree → List Frame → Tree × List Frame
leftmost leaf p = (leaf, p)
leftmost (branch c a e leaf r) p = (branch c a e leaf r, p)
leftmost (branch c a e (branch d b f l m) r) p = leftmost (branch d b f l m) (on_left c a e r ∷ p)

-- NULL, a crash, or the value, the block that is freed and the tree that is left.
pub data Removal : Type 0 where
  absent broken : Removal
  removed : Option ℕ → ℕ → Tree → Removal

abbrev pub removal : Option ℕ → ℕ → Option Tree → Removal
removal v b none = broken
removal v b (some t) = removed v b t

-- `y` of color `c` is taken out, and `x` put in its place.
unfoldable pub splice : Color → Tree → List Frame → Option Tree
unfolding fix_delete
splice c x p = if eq_color c black && not (is_leaf x) then fix_delete x p else some (plug x p)

-- The node has two children: the entry of `y`, whose left child is NULL, is moved into it.
unfoldable pub take_next : Color → ℕ → Entry → Tree → List Frame → Tree × List Frame → Removal
unfolding splice
take_next c a e l p (leaf, q) = broken
take_next c a e l p (branch d b f m r, q) =
    removal e.value b (splice d r (q ++ on_right c a f l ∷ p))

unfoldable pub remove_at : Tree × List Frame → Removal
unfolding splice take_next leftmost
remove_at (leaf, p) = absent
remove_at (branch c a e leaf r, p) = removal e.value a (splice c r p)
remove_at (branch c a e l leaf, p) = removal e.value a (splice c l p)
remove_at (branch c a e l r, p) = take_next c a e l p (leftmost r [])

unfoldable pub remove_key : ℕ → Tree → Removal
unfolding remove_at descend
remove_key key t = remove_at (descend key t [])
