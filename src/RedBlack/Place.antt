-- ===== src/RedBlack/Place.antt =====
-- The place of a key in a red-black tree of infra/infra_ds.c, and insertion there.
use ai_ppdb.Base.{ℕ, zero, suc, refl, List, [], ◌∷◌, Option, arith, if_split, ltb}
use ai_ppdb.RedBlack.{
  Color, red, black, Entry, Tree, leaf, branch, Frame, on_left, on_right, create_node, descend,
  insert_at, insert_key,
}
use ai_ppdb.RedBlack.Balance.{
  Good, Balanced, Balances, UnderBlack, Fits, Allows, plug-Good, fix_insert-Balances,
}

-- A subtree and its place in a red-black tree.
abbrev pub Placed : Tree × List Frame → Type 0
Placed r = (n : ℕ) × ((Good r.0 n) × (Fits r.1 n) × Allows r.0 r.1)

pub red-UnderBlack :
    (a : ℕ) (e : Entry) (l r : Tree) (p : List Frame) → Allows (branch red a e l r) p → UnderBlack p
red-UnderBlack a e l r [] h = cc
red-UnderBlack a e l r (f ∷ p) h = h

pub left-Placed :
    (c : Color) (a : ℕ) (e : Entry) (l r : Tree) (p : List Frame)
    → Placed (branch c a e l r, p)
    → Placed (l, on_left c a e r ∷ p)
left-Placed red a e l r p h =
    (h.0, (h.1.0.2, (h.1.0.1, h.1.0.3, red-UnderBlack a e l r p h.1.2, h.1.1), rw h.1.0.0 refl))
left-Placed black a e l r p (zero, h) = absurd h.0
left-Placed black a e l r p (suc n, h) = (n, (h.0.0, (h.0.1, h.1), ground arith))

pub right-Placed :
    (c : Color) (a : ℕ) (e : Entry) (l r : Tree) (p : List Frame)
    → Placed (branch c a e l r, p)
    → Placed (r, on_right c a e l ∷ p)
right-Placed red a e l r p h =
    (h.0, (h.1.0.3, (h.1.0.0, h.1.0.2, red-UnderBlack a e l r p h.1.2, h.1.1), rw h.1.0.1 refl))
right-Placed black a e l r p (zero, h) = absurd h.0
right-Placed black a e l r p (suc n, h) = (n, (h.0.1, (h.0.0, h.1), ground arith))

pub descend-Placed : (k : ℕ) (t : Tree) (p : List Frame) → Placed (t, p) → Placed (descend k t p)
unfolding descend
descend-Placed k leaf p h = h
descend-Placed k (branch c a e l r) p h =
    if_split Placed (ltb k e.key) _ _
      (λ less. descend-Placed k l (on_left c a e r ∷ p) (left-Placed c a e l r p h))
      (λ not_less.
        if_split Placed (ltb e.key k) _ _
          (λ more. descend-Placed k r (on_right c a e l ∷ p) (right-Placed c a e l r p h))
          (λ same. h))

same-Allows :
    (c : Color) (b : ℕ) (e x : Entry) (l r : Tree) (p : List Frame)
    → Allows (branch c b e l r) p
    → Allows (branch c b x l r) p
same-Allows c b e x l r [] h = h
same-Allows c b e x l r (f ∷ p) h = h

same-Good :
    (c : Color) (b : ℕ) (e x : Entry) (l r : Tree) (n : ℕ)
    → Good (branch c b e l r) n
    → Good (branch c b x l r) n
same-Good red b e x l r n h = h
same-Good black b e x l r (suc n) h = h
same-Good black b e x l r zero h = h

insert_at-Balances :
    (a k : ℕ) (v : Option ℕ) (r : Tree × List Frame) → Placed r → Balances (insert_at a k v r).0
unfolding insert_at
insert_at-Balances a k v (leaf, p) h =
    fix_insert-Balances (create_node a k v) p h.0 (refl, refl, h.1.0, h.1.0) refl h.1.1
insert_at-Balances a k v (branch c b e l r, p) h =
    let x : Entry = record e { value = v } in
    plug-Good (branch c b x l r) p h.0 (same-Good c b e x l r h.0 h.1.0) h.1.1
      (same-Allows c b e x l r p h.1.2)

-- An insertion into a red-black tree has a result, and it is a red-black tree.
pub insert_key-Balances :
    (a k : ℕ) (v : Option ℕ) (t : Tree) → Balanced t → Balances (insert_key a k v t).0
unfolding insert_key
insert_key-Balances a k v t h =
    insert_at-Balances a k v (descend k t []) (descend-Placed k t [] (h.0, (h.1.0, tt, h.1.1)))
