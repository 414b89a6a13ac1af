-- ===== src/RedBlack/Balance.antt =====
-- That insertion into the tree of infra/infra_ds.c keeps it a red-black tree.
use ai_ppdb.Base.{
  ℕ, zero, suc, ◌≡◌, refl, true, false, not, ◌&&◌, List, [], ◌∷◌, Option, none, some, arith,
  if_split,
}
use ai_ppdb.RedBlack.{
  red, black, Entry, Tree, leaf, branch, Frame, on_left, on_right, attach, plug, sibling, paint,
  paint_frame, blacken, is_red, frame_red, recolor, turn_out, rotate_up, rebalance, rotate_left,
  rotate_right, fix_insert, bind,
}

-- No red node has a red child, and every path down has `n` black nodes.
abbrev pub Good : Tree → ℕ → Type 0
Good leaf n = n ≡ 0
Good (branch black a e l r) zero = ⊥
Good (branch black a e l r) (suc n) = Good l n × Good r n
Good (branch red a e l r) n = (is_red l ≡ false) × (is_red r ≡ false) × (Good l n) × (Good r n)

-- A red-black tree: its root is black besides.
abbrev pub Balanced : Tree → Type 0
Balanced t = (n : ℕ) × (Good t n × (is_red t ≡ false))

-- There is a result, and it is a red-black tree.
abbrev pub Balances : Option Tree → Type 0
Balances none = ⊥
Balances (some t) = Balanced t

abbrev pub UnderBlack : List Frame → Type 0
UnderBlack [] = ⊥
UnderBlack (f ∷ p) = frame_red f ≡ false

-- A tree with `n` black nodes on each path down fits into the place.
abbrev pub Fits : List Frame → ℕ → Type 0
Fits [] n = Unit
Fits (on_left black a e s ∷ p) n = Good s n × Fits p (suc n)
Fits (on_right black a e s ∷ p) n = Good s n × Fits p (suc n)
Fits (on_left red a e s ∷ p) n = (is_red s ≡ false) × (Good s n) × UnderBlack p × Fits p n
Fits (on_right red a e s ∷ p) n = (is_red s ≡ false) × (Good s n) × UnderBlack p × Fits p n

-- The root is not red, and not both a node and its parent are.
abbrev pub Allows : Tree → List Frame → Type 0
Allows t [] = is_red t ≡ false
Allows t (f ∷ p) = is_red t && frame_red f ≡ false

pub UnderBlack-Allows : (t : Tree) (p : List Frame) → UnderBlack p → Allows t p
UnderBlack-Allows t [] h = absurd h
UnderBlack-Allows t (f ∷ p) h = ground arith

pub black-Allows : (t : Tree) (p : List Frame) → is_red t ≡ false → Allows t p
black-Allows t [] h = h
black-Allows t (f ∷ p) h = rw h refl

pub plug-Good :
    (t : Tree) (p : List Frame) (n : ℕ) → Good t n → Fits p n → Allows t p → Balanced (plug t p)
plug-Good t [] n g h k = (n, (g, k))
plug-Good t (on_left black a e s ∷ p) n g h k =
    plug-Good (branch black a e t s) p (suc n) (g, h.0) h.1
      (black-Allows (branch black a e t s) p refl)
plug-Good t (on_right black a e s ∷ p) n g h k =
    plug-Good (branch black a e s t) p (suc n) (h.0, g) h.1
      (black-Allows (branch black a e s t) p refl)
plug-Good t (on_left red a e s ∷ p) n g h k =
    plug-Good (branch red a e t s) p n (ground arith, h.0, g, h.1) h.3
      (UnderBlack-Allows (branch red a e t s) p h.2)
plug-Good t (on_right red a e s ∷ p) n g h k =
    plug-Good (branch red a e s t) p n (h.0, ground arith, h.1, g) h.3
      (UnderBlack-Allows (branch red a e s t) p h.2)

abbrev pub IsBranch : Tree → Type 0
IsBranch leaf = ⊥
IsBranch (branch c a e l r) = Unit

plug-IsBranch : (t : Tree) (p : List Frame) → IsBranch t → IsBranch (plug t p)
plug-IsBranch t [] h = h
plug-IsBranch t (on_left c a e s ∷ p) h = plug-IsBranch (branch c a e t s) p tt
plug-IsBranch t (on_right c a e s ∷ p) h = plug-IsBranch (branch c a e s t) p tt

paint-Balances : (t : Tree) (n : ℕ) → Good t n → IsBranch t → Balances (paint black t)
paint-Balances leaf n g h = h
paint-Balances (branch red a e l r) n g h = (suc n, ((g.2, g.3), refl))
paint-Balances (branch black a e l r) n g h = (n, (g, refl))

plug-Balances :
    (t : Tree) (p : List Frame) (n : ℕ)
    → Good t n
    → Fits p n
    → Allows t p
    → IsBranch t
    → Balances (paint black (plug t p))
plug-Balances t p n g h k b =
    let r = plug-Good t p n g h k in paint-Balances (plug t p) r.0 r.1.0 (plug-IsBranch t p b)

-- Around a red parent: its other child and its own parent are not red.
red_parent :
    (f g : Frame) (p : List Frame) (n : ℕ)
    → Fits (f ∷ g ∷ p) n
    → frame_red f ≡ true
    → (Good (sibling f) n) × (frame_red g ≡ false) × Fits (g ∷ p) n
red_parent (on_left red a e s) g p n h i = (h.1, h.2, h.3)
red_parent (on_right red a e s) g p n h i = (h.1, h.2, h.3)
red_parent (on_left black a e s) g p n h i = cc
red_parent (on_right black a e s) g p n h i = cc

black_parent :
    (g : Frame) (p : List Frame) (n : ℕ)
    → Fits (g ∷ p) n
    → frame_red g ≡ false
    → (Good (sibling g) n) × Fits p (suc n)
black_parent (on_left black a e s) p n h i = h
black_parent (on_right black a e s) p n h i = h
black_parent (on_left red a e s) p n h i = cc
black_parent (on_right red a e s) p n h i = cc

blacken-Good :
    (u : Tree) (n : ℕ)
    → Good u n
    → is_red u ≡ true
    → Good (blacken u) (suc n) × (is_red (blacken u) ≡ false)
blacken-Good leaf n g h = cc
blacken-Good (branch red a e l r) n g h = ((g.2, g.3), refl)
blacken-Good (branch black a e l r) n g h = cc

attach-Good :
    (t : Tree) (f : Frame) (n : ℕ)
    → Good t n
    → Good (sibling f) n
    → Good (attach t (paint_frame black f)) (suc n)
      × (is_red (attach t (paint_frame black f)) ≡ false)
attach-Good t (on_left c a e s) n g h = ((g, h), refl)
attach-Good t (on_right c a e s) n g h = ((h, g), refl)

-- Both the parent and the uncle of a red node are red: its grandparent can be the red node.
recolor-Good :
    (t : Tree) (f g : Frame) (p : List Frame) (n : ℕ)
    → Good t n
    → Fits (f ∷ g ∷ p) n
    → frame_red f ≡ true
    → is_red (sibling g) ≡ true
    → Good (recolor t f g) (suc n) × (is_red (recolor t f g) ≡ true) × Fits p (suc n)
unfolding recolor
recolor-Good t f (on_left c a e u) p n k h i j =
    let parent = red_parent f (on_left c a e u) p n h i in
    let above = black_parent (on_left c a e u) p n parent.2 parent.1 in
    let first = attach-Good t f n k parent.0 in
    let uncle = blacken-Good u n above.0 j in ((first.1, uncle.1, first.0, uncle.0), refl, above.1)
recolor-Good t f (on_right c a e u) p n k h i j =
    let parent = red_parent f (on_right c a e u) p n h i in
    let above = black_parent (on_right c a e u) p n parent.2 parent.1 in
    let first = attach-Good t f n k parent.0 in
    let uncle = blacken-Good u n above.0 j in ((uncle.1, first.1, uncle.0, first.0), refl, above.1)

-- What a rotation gives.
abbrev Rotated : Option Tree → List Frame → ℕ → Type 0
Rotated none p n = ⊥
Rotated (some u) p n = Good u n × (is_red u ≡ false) × IsBranch u × Fits p n

rebalance-Rotated :
    (a : ℕ) (e : Entry) (l r : Tree) (f g : Frame) (p : List Frame) (n : ℕ)
    → Good (branch red a e l r) n
    → Fits (f ∷ g ∷ p) n
    → frame_red f ≡ true
    → is_red (sibling g) ≡ false
    → Rotated (rebalance (branch red a e l r) f g) p (suc n)
unfolding rebalance turn_out rotate_up rotate_left rotate_right
rebalance-Rotated a e l r (on_left red b x s) (on_left black d y u) p n k h i j =
    ((k, (h.0, j, h.1, h.3.0)), refl, tt, h.3.1)
rebalance-Rotated a e l r (on_right red b x s) (on_right black d y u) p n k h i j =
    (((j, h.0, h.3.0, h.1), k), refl, tt, h.3.1)
rebalance-Rotated a e l r (on_right red b x s) (on_left black d y u) p n k h i j =
    (((h.0, k.0, h.1, k.2), (k.1, j, k.3, h.3.0)), refl, tt, h.3.1)
rebalance-Rotated a e l r (on_left red b x s) (on_right black d y u) p n k h i j =
    (((j, k.0, h.3.0, k.2), (k.1, h.0, k.3, h.1)), refl, tt, h.3.1)
rebalance-Rotated a e l r (on_left black b x s) g p n k h i j = cc
rebalance-Rotated a e l r (on_right black b x s) g p n k h i j = cc
rebalance-Rotated a e l r f (on_left red d y u) p n k h i j =
    let q = (red_parent f (on_left red d y u) p n h i).1 in cc
rebalance-Rotated a e l r f (on_right red d y u) p n k h i j =
    let q = (red_parent f (on_right red d y u) p n h i).1 in cc

Rotated-Balances :
    (o : Option Tree) (p : List Frame) (n : ℕ)
    → Rotated o p n
    → Balances (bind o (λ u. paint black (plug u p)))
Rotated-Balances none p n h = h
Rotated-Balances (some u) p n h = plug-Balances u p n h.0 h.3 (black-Allows u p h.1) h.2

red-IsBranch : (t : Tree) → is_red t ≡ true → IsBranch t
red-IsBranch leaf h = cc
red-IsBranch (branch c a e l r) h = tt

up-Rotated :
    (t : Tree) (f g : Frame) (p : List Frame) (n : ℕ)
    → Good t n
    → is_red t ≡ true
    → Fits (f ∷ g ∷ p) n
    → frame_red f ≡ true
    → is_red (sibling g) ≡ false
    → Rotated (rebalance t f g) p (suc n)
up-Rotated leaf f g p n k c h i j = cc
up-Rotated (branch black a e l r) f g p n k c h i j = cc
up-Rotated (branch red a e l r) f g p n k c h i j = rebalance-Rotated a e l r f g p n k h i j

red_root : (f : Frame) (n : ℕ) → Fits (f ∷ []) n → frame_red f ≡ true → ⊥
red_root (on_left red a e s) n h i = h.2
red_root (on_right red a e s) n h i = h.2
red_root (on_left black a e s) n h i = cc
red_root (on_right black a e s) n h i = cc

-- For a red node in a place of a red-black tree, the repair after an insertion has a result,
-- and it is a red-black tree: a black root, no red child of a red node, and as many black nodes
-- on each path down.
pub fix_insert-Balances :
    (t : Tree) (p : List Frame) (n : ℕ)
    → Good t n
    → is_red t ≡ true
    → Fits p n
    → Balances (fix_insert t p)
unfolding fix_insert
fix_insert-Balances t [] n g c h = paint-Balances t n g (red-IsBranch t c)
fix_insert-Balances t (f ∷ []) n g c h =
    if_split Balances (frame_red f) _ _ (λ e. absurd (red_root f n h e))
      (λ e. plug-Balances t (f ∷ []) n g h (rw (e, c) refl) (red-IsBranch t c))
fix_insert-Balances t (f ∷ g ∷ p) n k c h =
    if_split Balances (not (frame_red f)) _ _
      (λ e. plug-Balances t (f ∷ g ∷ p) n k h (ground arith) (red-IsBranch t c))
      (λ e.
        if_split Balances (is_red (sibling g)) _ _
          (λ q.
            let r = recolor-Good t f g p n k h (ground arith) q in
            fix_insert-Balances (recolor t f g) p (suc n) r.0 r.1 r.2)
          (λ q.
            Rotated-Balances (rebalance t f g) p (suc n)
              (up-Rotated t f g p n k c h (ground arith) q)))
