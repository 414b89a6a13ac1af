-- ===== src/RedBlack.antt =====
-- The red-black tree of infra/infra_ds.c (in ppdb/src/internal). A node's parent pointer is the
-- path of frames from it to the root; a result `none` is a read or write through NULL.
pub mod Spec
pub mod Walk
pub mod Search
pub mod Insertion
pub mod Balance
pub mod Place
pub mod Delete
pub mod Api
pub mod Fixup
pub mod Erase
pub mod Unlink
pub mod Laws
pub mod Blocks
use ai_ppdb.Base.{
  ℕ, zero, suc, Bool, true, false, not, List, [], ◌∷◌, Option, none, some, ltb, if◌then◌else◌,
}
use ai_ppdb.Base.Words.{add64, sub64}
use ai_ppdb.Error.{InfraError, ok, invalid_param, no_memory}
use ai_ppdb.System.{System}

-- `infra_rbtree_color_t`
pub data Color : Type 0 where
  red black : Color

-- The key, an `int`, is held as its distance from INT_MIN, which keeps the order. The value is a
-- pointer, or NULL.
pub record Entry : Type 0 where
  pub key : ℕ
  pub value : Option ℕ

-- `infra_rbtree_node_t`: its color, its address, its entry and its children.
pub data Tree : Type 0 where
  leaf : Tree
  branch : Color → ℕ → Entry → Tree → Tree → Tree

-- `infra_rbtree_t`
pub record RbTree : Type 0 where
  pub root : Tree
  pub size : ℕ

-- A parent, seen from its left or from its right child, with its other child.
pub data Frame : Type 0 where
  on_left on_right : Color → ℕ → Entry → Tree → Frame

abbrev pub attach : Tree → Frame → Tree
attach t (on_left c a e s) = branch c a e t s
attach t (on_right c a e s) = branch c a e s t

-- The whole tree around a node.
abbrev pub plug : Tree → List Frame → Tree
plug t [] = t
plug t (f ∷ p) = plug (attach t f) p

abbrev pub sibling : Frame → Tree
sibling (on_left c a e s) = s
sibling (on_right c a e s) = s

-- `create_node`, the block being at `a`.
abbrev pub create_node : ℕ → ℕ → Option ℕ → Tree
create_node a key value = branch red a (record { key = key; value = value }) leaf leaf

unfoldable pub rotate_left : Tree → Option Tree
rotate_left (branch c a e l (branch d b f m r)) = some (branch d b f (branch c a e l m) r)
rotate_left (branch c a e l leaf) = none
rotate_left leaf = none

unfoldable pub rotate_right : Tree → Option Tree
rotate_right (branch c a e (branch d b f l m) r) = some (branch d b f l (branch c a e m r))
rotate_right (branch c a e leaf r) = none
rotate_right leaf = none

-- `node->color = c`
abbrev pub paint : Color → Tree → Option Tree
paint c leaf = none
paint c (branch d a e l r) = some (branch c a e l r)

abbrev pub paint_frame : Color → Frame → Frame
paint_frame c (on_left d a e s) = on_left c a e s
paint_frame c (on_right d a e s) = on_right c a e s

abbrev pub eq_color : Color → Color → Bool
eq_color red red = true
eq_color black black = true
eq_color _ _ = false

-- `node != NULL && node->color == INFRA_RBTREE_RED`
abbrev pub is_red : Tree → Bool
is_red leaf = false
is_red (branch c a e l r) = eq_color c red

-- Whether the parent is red.
abbrev pub frame_red : Frame → Bool
frame_red (on_left c a e s) = eq_color c red
frame_red (on_right c a e s) = eq_color c red

abbrev pub bind {ℓ} : {A : Type ℓ} → Option A → (A → Option A) → Option A
bind none f = none
bind (some a) f = f a

-- The uncle is red: parent and uncle become black, the grandparent red.
abbrev pub blacken : Tree → Tree
blacken leaf = leaf
blacken (branch c a e l r) = branch black a e l r

unfoldable pub recolor : Tree → Frame → Frame → Tree
recolor t f (on_left c a e s) = branch red a e (attach t (paint_frame black f)) (blacken s)
recolor t f (on_right c a e s) = branch red a e (blacken s) (attach t (paint_frame black f))

-- The uncle is black or NULL: a node between its parent and its grandparent is first rotated out.
unfoldable pub turn_out : Tree → Frame → Frame → Option Tree
unfolding rotate_left rotate_right
turn_out t (on_right c a e s) (on_left d b f u) = rotate_left (branch c a e s t)
turn_out t (on_left c a e s) (on_right d b f u) = rotate_right (branch c a e t s)
turn_out t (on_left c a e s) (on_left d b f u) = some (branch c a e t s)
turn_out t (on_right c a e s) (on_right d b f u) = some (branch c a e s t)

unfoldable pub rotate_up : Frame → Tree → Option Tree
unfolding rotate_left rotate_right
rotate_up (on_left d b f u) t = rotate_right (branch red b f t u)
rotate_up (on_right d b f u) t = rotate_left (branch red b f u t)

unfoldable pub rebalance : Tree → Frame → Frame → Option Tree
unfolding turn_out rotate_up
rebalance t f g = bind (bind (turn_out t f g) (paint black)) (rotate_up g)

-- The node is `t`, the frames lead to the root. After a rotation the parent is black, which ends
-- the loop.
unfoldable pub fix_insert : Tree → List Frame → Option Tree
unfolding recolor rebalance
fix_insert t [] = paint black t
fix_insert t (f ∷ []) = if frame_red f then none else paint black (attach t f)
fix_insert t (f ∷ g ∷ p) =
    let up = fix_insert (recolor t f g) p in
    if not (frame_red f)
    then paint black (plug t (f ∷ g ∷ p))
    else if is_red (sibling g)
    then up
    else bind (rebalance t f g) (λ u. paint black (plug u p))

-- The loops that look for a key: the node with the key or NULL, and the way there.
unfoldable pub descend : ℕ → Tree → List Frame → Tree × List Frame
descend key leaf p = (leaf, p)
descend key (branch c a e l r) p =
    let to_left = descend key l (on_left c a e r ∷ p) in
    let to_right = descend key r (on_right c a e l ∷ p) in
    if ltb key e.key then to_left else if ltb e.key key then to_right else (branch c a e l r, p)

-- What `infra_rbtree_insert` makes of the tree, and whether the new node is in it.
unfoldable pub insert_at : ℕ → ℕ → Option ℕ → Tree × List Frame → Option Tree × Bool
unfolding fix_insert
insert_at a key value (leaf, p) = (fix_insert (create_node a key value) p, true)
insert_at a key value (branch c b e l r, p) =
    (some (plug (branch c b (record e { value = value }) l r) p), false)

unfoldable pub insert_key : ℕ → ℕ → Option ℕ → Tree → Option Tree × Bool
unfolding insert_at descend
insert_key a key value t = insert_at a key value (descend key t [])

unfoldable pub find : ℕ → Tree → Option ℕ
find key leaf = none
find key (branch c a e l r) =
    let to_left = find key l in
    let to_right = find key r in
    if ltb key e.key then to_left else if ltb e.key key then to_right else e.value

unfoldable pub infra_rbtree_find : Option RbTree → ℕ → Option ℕ
infra_rbtree_find none key = none
infra_rbtree_find (some t) key = find key t.root
