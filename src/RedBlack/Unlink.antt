-- ===== src/RedBlack/Unlink.antt =====
-- What removal from a red-black tree of infra/infra_ds.c leaves: the loop of `fix_delete` is not
-- entered where the node taken out has no child.
use ai_ppdb.Base.{
  ℕ, zero, suc, ◌≡◌, refl, sym, subst, ◌∙◌, ap, Bool, true, false, not, List, [], ◌∷◌, ◌++◌, Option,
  some, ◌&&◌, arith,
}
use ai_ppdb.RedBlack.{
  Color, red, black, Entry, Tree, leaf, branch, Frame, on_left, on_right, plug, sibling, eq_color,
  is_red, descend,
}
use ai_ppdb.RedBlack.Delete.{
  is_leaf, fix_delete, leftmost, Removal, absent, broken, removed, removal, splice, take_next,
  remove_at, remove_key,
}
use ai_ppdb.RedBlack.Balance.{Good, Balanced, UnderBlack, Fits, plug-Good, black-Allows}
use ai_ppdb.RedBlack.Place.{Placed, descend-Placed, left-Placed, right-Placed, red-UnderBlack}

abbrev pub is_empty : List Frame → Bool
is_empty [] = true
is_empty (f ∷ p) = false

abbrev black_leaf : Tree → Bool
black_leaf leaf = false
black_leaf (branch c a e l r) = eq_color c black && is_leaf r

-- Whether the node that is taken out of its place is black, has no child and is not the root.
abbrev pub takes_black_leaf : Tree × List Frame → Bool
takes_black_leaf (leaf, p) = false
takes_black_leaf (branch c a e leaf r, p) = eq_color c black && (is_leaf r && not (is_empty p))
takes_black_leaf (branch c a e (branch d b f l m) leaf, p) = false
takes_black_leaf (branch c a e (branch d b f l m) (branch i j k n o), p) =
    black_leaf (leftmost (branch i j k n o) []).0

-- There is no crash; the tree that is left is a red-black tree, or it is none where `spoiled`.
abbrev pub Leaves : Bool → Removal → Type 0
Leaves spoiled absent = Unit
Leaves spoiled broken = ⊥
Leaves false (removed v b u) = Balanced u
Leaves true (removed v b u) = ¬ (Balanced u)

-- The place of a node with at most the child `x`.
abbrev Alone : Color → Tree → List Frame → Type 0
Alone red x p = (is_red x ≡ false) × (Good x 0) × Fits p 0 × UnderBlack p
Alone black x p = Good x 0 × Fits p 1

Good-unique : (t : Tree) (m n : ℕ) → Good t m → Good t n → m ≡ n
Good-unique leaf m n g h = g ∙ sym h
Good-unique (branch red a e l r) m n g h = Good-unique l m n g.2 h.2
Good-unique (branch black a e l r) (suc m) (suc n) g h = ap suc (Good-unique l m n g.0 h.0)
Good-unique (branch black a e l r) zero n g h = absurd g
Good-unique (branch black a e l r) (suc m) zero g h = absurd h

under_black_left :
    (a : ℕ) (e : Entry) (t s : Tree) → (n : ℕ) × Good (branch black a e t s) n → (n : ℕ) × Good t n
under_black_left a e t s (zero, g) = absurd g
under_black_left a e t s (suc n, g) = (n, g.0)

under_black_right :
    (a : ℕ) (e : Entry) (t s : Tree) → (n : ℕ) × Good (branch black a e s t) n → (n : ℕ) × Good t n
under_black_right a e t s (zero, g) = absurd g
under_black_right a e t s (suc n, g) = (n, g.1)

-- A red-black tree is one in every place.
unplug : (t : Tree) (p : List Frame) → Balanced (plug t p) → (n : ℕ) × Good t n
unplug t [] h = (h.0, h.1.0)
unplug t (on_left red a e s ∷ p) h = let r = unplug (branch red a e t s) p h in (r.0, r.1.2)
unplug t (on_right red a e s ∷ p) h = let r = unplug (branch red a e s t) p h in (r.0, r.1.3)
unplug t (on_left black a e s ∷ p) h = under_black_left a e t s (unplug (branch black a e t s) p h)
unplug t (on_right black a e s ∷ p) h =
    under_black_right a e t s (unplug (branch black a e s t) p h)

sibling_misfit : (s : Tree) (n : ℕ) → n ≡ 0 → Good s n → ¬ (Good s 1)
sibling_misfit s n e g h = let q = Good-unique s n 1 g h in absurd (omega arith)

around_leaf_left :
    (c : Color) (a : ℕ) (e : Entry) (s : Tree) (n : ℕ) → Good (branch c a e leaf s) n → ¬ (Good s 1)
around_leaf_left red a e s n g h = sibling_misfit s n g.2 g.3 h
around_leaf_left black a e s zero g h = g
around_leaf_left black a e s (suc n) g h = sibling_misfit s n g.0 g.1 h

around_leaf_right :
    (c : Color) (a : ℕ) (e : Entry) (s : Tree) (n : ℕ) → Good (branch c a e s leaf) n → ¬ (Good s 1)
around_leaf_right red a e s n g h = sibling_misfit s n g.3 g.2 h
around_leaf_right black a e s zero g h = g
around_leaf_right black a e s (suc n) g h = sibling_misfit s n g.1 g.0 h

Fits-sibling : (f : Frame) (p : List Frame) (n : ℕ) → Fits (f ∷ p) n → Good (sibling f) n
Fits-sibling (on_left red a e s) p n h = h.1
Fits-sibling (on_right red a e s) p n h = h.1
Fits-sibling (on_left black a e s) p n h = h.0
Fits-sibling (on_right black a e s) p n h = h.0

-- A leaf does not fit where a black node stood.
leaf_misfit : (f : Frame) (p : List Frame) → Fits (f ∷ p) 1 → ¬ (Balanced (plug leaf (f ∷ p)))
leaf_misfit (on_left c a e s) p h b =
    let r = unplug (branch c a e leaf s) p b in
    around_leaf_left c a e s r.0 r.1 (Fits-sibling (on_left c a e s) p 1 h)
leaf_misfit (on_right c a e s) p h b =
    let r = unplug (branch c a e s leaf) p b in
    around_leaf_right c a e s r.0 r.1 (Fits-sibling (on_right c a e s) p 1 h)

fix_delete-red :
    (a : ℕ) (e : Entry) (l r : Tree) (p : List Frame)
    → fix_delete (branch red a e l r) p ≡ some (plug (branch black a e l r) p)
unfolding fix_delete
fix_delete-red a e l r [] = refl
fix_delete-red a e l r (on_left c b f s ∷ p) = refl
fix_delete-red a e l r (on_right c b f s ∷ p) = refl

splice-Leaves :
    (c : Color) (x : Tree) (p : List Frame) (v : Option ℕ) (b : ℕ)
    → Alone c x p
    → Leaves (eq_color c black && (is_leaf x && not (is_empty p))) (removal v b (splice c x p))
unfolding splice
splice-Leaves red leaf p v b h = plug-Good leaf p 0 h.1 h.2 (black-Allows leaf p refl)
splice-Leaves red (branch red a e l r) p v b h = let q = h.0 in cc
splice-Leaves red (branch black a e l r) p v b h = absurd h.1
splice-Leaves black leaf [] v b h = (0, (refl, refl))
splice-Leaves black leaf (f ∷ p) v b h = leaf_misfit f p h.1
splice-Leaves black (branch black a e l r) p v b h = absurd h.0
splice-Leaves black (branch red a e l r) p v b h =
    let u = branch black a e l r in
    rw (fix_delete-red a e l r p) (plug-Good u p 1 (h.0.2, h.0.3) h.1 (black-Allows u p refl))

left_empty :
    (c : Color) (a : ℕ) (e : Entry) (r : Tree) (p : List Frame)
    → Placed (branch c a e leaf r, p)
    → Alone c r p
left_empty red a e r p (n, (g, h, k)) =
    (g.1, subst (Good r) g.2 g.3, subst (Fits p) g.2 h, red-UnderBlack a e leaf r p k)
left_empty black a e r p (zero, (g, h, k)) = absurd g
left_empty black a e r p (suc n, (g, h, k)) =
    (subst (Good r) g.0 g.1, subst (Fits p) (ap suc g.0) h)

right_empty :
    (c : Color) (a : ℕ) (e : Entry) (l : Tree) (p : List Frame)
    → Placed (branch c a e l leaf, p)
    → Alone c l p
right_empty red a e l p (n, (g, h, k)) =
    (g.0, subst (Good l) g.3 g.2, subst (Fits p) g.3 h, red-UnderBlack a e l leaf p k)
right_empty black a e l p (zero, (g, h, k)) = absurd g
right_empty black a e l p (suc n, (g, h, k)) =
    (subst (Good l) g.1 g.0, subst (Fits p) (ap suc g.1) h)

abbrev append_path : Tree × List Frame → List Frame → Tree × List Frame
append_path r s = (r.0, r.1 ++ s)

leftmost-append : (t : Tree) (q s : List Frame) → leftmost t (q ++ s) ≡ append_path (leftmost t q) s
unfolding leftmost
leftmost-append leaf q s = refl
leftmost-append (branch c a e leaf r) q s = refl
leftmost-append (branch c a e (branch d b f l m) r) q s =
    leftmost-append (branch d b f l m) (on_left c a e r ∷ q) s

leftmost-Placed : (t : Tree) (p : List Frame) → Placed (t, p) → Placed (leftmost t p)
unfolding leftmost
leftmost-Placed leaf p h = h
leftmost-Placed (branch c a e leaf r) p h = h
leftmost-Placed (branch c a e (branch d b f l m) r) p h =
    leftmost-Placed (branch d b f l m) (on_left c a e r ∷ p)
      (left-Placed c a e (branch d b f l m) r p h)

-- The leftmost node of a tree that is not empty: it has no left child.
abbrev Bare : Tree → Type 0
Bare leaf = ⊥
Bare (branch c a e l r) = l ≡ leaf

leftmost-Bare :
    (c : Color) (a : ℕ) (e : Entry) (l r : Tree) (p : List Frame)
    → Bare (leftmost (branch c a e l r) p).0
unfolding leftmost
leftmost-Bare c a e leaf r p = refl
leftmost-Bare c a e (branch d b f l m) r p = leftmost-Bare d b f l m (on_left c a e r ∷ p)

is_empty-append : (q : List Frame) (f : Frame) (p : List Frame) → is_empty (q ++ f ∷ p) ≡ false
is_empty-append [] f p = refl
is_empty-append (g ∷ q) f p = refl

-- The entry of a node does not count for its place.
other_entry :
    (c : Color) (a : ℕ) (e f : Entry) (l r : Tree) (p : List Frame)
    → Placed (r, on_right c a e l ∷ p)
    → Placed (r, on_right c a f l ∷ p)
other_entry red a e f l r p h = h
other_entry black a e f l r p h = h

take_next-Leaves :
    (c : Color) (a : ℕ) (e : Entry) (l r : Tree) (p : List Frame) (y : Tree × List Frame)
    → Bare y.0
    → ((f : Entry) → Placed (append_path y (on_right c a f l ∷ p)))
    → Leaves (black_leaf y.0) (take_next c a e l p y)
unfolding take_next
take_next-Leaves c a e l r p (leaf, q) b h = b
take_next-Leaves c a e l r p (branch d j f m x, q) b h =
    let path = q ++ on_right c a f l ∷ p in
    let placed : Placed (branch d j f leaf x, path) =
      subst (λ m. Placed (branch d j f m x, path)) b (h f) in
    let done = splice-Leaves d x path e.value j (left_empty d j f x path placed) in
    subst (λ o. Leaves o (removal e.value j (splice d x path)))
      (rw (is_empty-append q (on_right c a f l) p) (ground arith)) done

remove_at-Leaves : (r : Tree × List Frame) → Placed r → Leaves (takes_black_leaf r) (remove_at r)
unfolding remove_at
remove_at-Leaves (leaf, p) h = tt
remove_at-Leaves (branch c a e leaf r, p) h = splice-Leaves c r p e.value a (left_empty c a e r p h)
remove_at-Leaves (branch c a e (branch d b f l m) leaf, p) h =
    let child = branch d b f l m in
    let none_lost : eq_color c black && false ≡ false = ground arith in
    subst (λ o. Leaves o (removal e.value a (splice c child p))) none_lost
      (splice-Leaves c child p e.value a (right_empty c a e child p h))
remove_at-Leaves (branch c a e (branch d b f l m) (branch i j k n o), p) h =
    let left = branch d b f l m in
    let right = branch i j k n o in
    take_next-Leaves c a e left right p (leftmost right []) (leftmost-Bare i j k n o []) (λ g.
      subst Placed (leftmost-append right [] (on_right c a g left ∷ p)) (
        leftmost-Placed right (on_right c a g left ∷ p)
          (other_entry c a e g left right p (right-Placed c a e left right p h))))

-- A removal from a red-black tree leaves a red-black tree, except where the node that is taken
-- out of its place is black, has no child and is not the root: then the tree that is left is
-- not a red-black tree.
pub remove_key-Leaves :
    (k : ℕ) (t : Tree) → Balanced t → Leaves (takes_black_leaf (descend k t [])) (remove_key k t)
unfolding remove_key
remove_key-Leaves k t h =
    remove_at-Leaves (descend k t []) (descend-Placed k t [] (h.0, (h.1.0, tt, h.1.1)))
