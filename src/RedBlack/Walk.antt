-- ===== src/RedBlack/Walk.antt =====
-- The nodes of a tree of infra/infra_ds.c in the order of their keys, seen from one of them.
use ai_ppdb.Base.{
  ℕ, ◌≡◌, refl, sym, ◌∙◌, ap, not, List, [], ◌∷◌, ◌++◌, Option, none, some, if_split,
}
use ai_ppdb.RedBlack.{
  Color, red, black, Entry, Tree, leaf, branch, Frame, on_left, on_right, attach, plug, paint,
  paint_frame, blacken, recolor, turn_out, rotate_up, rebalance, rotate_left, rotate_right,
  fix_insert, bind, frame_red, is_red, sibling,
}
use mathlib.Core.List.{append_assoc, append-nil}

module _ {B : Type 0} (f : ℕ → Entry → B) where
  -- What `f` makes of the nodes of a tree, from left to right.
  abbrev pub walk : Tree → List B
  walk leaf = []
  walk (branch c a e l r) = walk l ++ f a e ∷ walk r

  -- What stands before and after the subtree that a path leads to.
  abbrev pub before : List Frame → List B
  before [] = []
  before (on_left c a e s ∷ p) = before p
  before (on_right c a e s ∷ p) = before p ++ (walk s ++ f a e ∷ [])

  abbrev pub after : List Frame → List B
  after [] = []
  after (on_left c a e s ∷ p) = f a e ∷ (walk s ++ after p)
  after (on_right c a e s ∷ p) = after p

  pub walk-plug : (t : Tree) (p : List Frame) → walk (plug t p) ≡ before p ++ (walk t ++ after p)
  walk-plug t [] = sym (append-nil (walk t))
  walk-plug t (on_left c a e s ∷ p) =
      walk-plug (branch c a e t s) p
      ∙ ap (λ l. before p ++ l) (append_assoc (walk t) (f a e ∷ walk s) (after p))
  walk-plug t (on_right c a e s ∷ p) = walk-plug (branch c a e s t) p ∙ simp (append_assoc)

  -- The same, around the root of the subtree.
  pub walk-plug_branch :
      (c : Color) (a : ℕ) (e : Entry) (l r : Tree) (p : List Frame)
      → walk (plug (branch c a e l r) p) ≡ (before p ++ walk l) ++ f a e ∷ (walk r ++ after p)
  walk-plug_branch c a e l r p = walk-plug (branch c a e l r) p ∙ simp (append_assoc)

  -- Trees that are walked alike are so in every place.
  pub walk-plug_same :
      (t u : Tree) (p : List Frame) → walk t ≡ walk u → walk (plug t p) ≡ walk (plug u p)
  walk-plug_same t u p e = walk-plug t p ∙ rw e (sym (walk-plug u p))

  walk-blacken : (t : Tree) → walk (blacken t) ≡ walk t
  walk-blacken leaf = refl
  walk-blacken (branch c a e l r) = refl

  -- A result that is walked like this, if there is one.
  abbrev pub Keeps : List B → Option Tree → Type 0
  Keeps l none = Unit
  Keeps l (some u) = walk u ≡ l

  pub bind-Keeps :
      (l m : List B) (o : Option Tree) (g : Tree → Option Tree)
      → Keeps l o
      → ((u : Tree) → walk u ≡ l → Keeps m (g u))
      → Keeps m (bind o g)
  bind-Keeps l m none g k h = tt
  bind-Keeps l m (some u) g k h = h u k

  pub paint-Keeps : (c : Color) (t : Tree) (l : List B) → walk t ≡ l → Keeps l (paint c t)
  paint-Keeps c leaf l e = tt
  paint-Keeps c (branch d a x m r) l e = e

  walk-attach : (t u : Tree) (g : Frame) → walk t ≡ walk u → walk (attach t g) ≡ walk (attach u g)
  walk-attach t u (on_left c a e s) h = rw h refl
  walk-attach t u (on_right c a e s) h = rw h refl

  walk-paint_frame :
      (t : Tree) (c : Color) (g : Frame) → walk (attach t (paint_frame c g)) ≡ walk (attach t g)
  walk-paint_frame t c (on_left d a e s) = refl
  walk-paint_frame t c (on_right d a e s) = refl

  walk-recolor : (t : Tree) (g h : Frame) → walk (recolor t g h) ≡ walk (attach (attach t g) h)
  unfolding recolor
  walk-recolor t g (on_left c a e s) = rw (walk-paint_frame t black g, walk-blacken s) refl
  walk-recolor t g (on_right c a e s) = rw (walk-paint_frame t black g, walk-blacken s) refl

  pub rotate_left-Keeps : (t : Tree) (l : List B) → walk t ≡ l → Keeps l (rotate_left t)
  unfolding rotate_left
  rotate_left-Keeps leaf l e = tt
  rotate_left-Keeps (branch c a x m leaf) l e = tt
  rotate_left-Keeps (branch c a x m (branch d b y n r)) l e = rw (← e) (simp (append_assoc))

  pub rotate_right-Keeps : (t : Tree) (l : List B) → walk t ≡ l → Keeps l (rotate_right t)
  unfolding rotate_right
  rotate_right-Keeps leaf l e = tt
  rotate_right-Keeps (branch c a x leaf r) l e = tt
  rotate_right-Keeps (branch c a x (branch d b y m n) r) l e = rw (← e) (simp (append_assoc))

  turn_out-Keeps : (t : Tree) (g h : Frame) → Keeps (walk (attach t g)) (turn_out t g h)
  unfolding turn_out
  turn_out-Keeps t (on_right c a e s) (on_left d b x u) =
      rotate_left-Keeps (branch c a e s t) _ refl
  turn_out-Keeps t (on_left c a e s) (on_right d b x u) =
      rotate_right-Keeps (branch c a e t s) _ refl
  turn_out-Keeps t (on_left c a e s) (on_left d b x u) = refl
  turn_out-Keeps t (on_right c a e s) (on_right d b x u) = refl

  rotate_up-Keeps : (t : Tree) (h : Frame) → Keeps (walk (attach t h)) (rotate_up h t)
  unfolding rotate_up
  rotate_up-Keeps t (on_left d b x u) = rotate_right-Keeps (branch red b x t u) _ refl
  rotate_up-Keeps t (on_right d b x u) = rotate_left-Keeps (branch red b x u t) _ refl

  rebalance-Keeps :
      (t : Tree) (g h : Frame) → Keeps (walk (attach (attach t g) h)) (rebalance t g h)
  unfolding rebalance
  rebalance-Keeps t g h =
      bind-Keeps (walk (attach t g)) _ (bind (turn_out t g h) (paint black)) (rotate_up h)
        (bind-Keeps (walk (attach t g)) _ (turn_out t g h) (paint black) (turn_out-Keeps t g h)
          (λ u e. paint-Keeps black u _ e))
        (λ u e. rw (walk-attach (attach t g) u h (sym e)) (rotate_up-Keeps u h))

  pub fix_insert-Keeps : (t : Tree) (p : List Frame) → Keeps (walk (plug t p)) (fix_insert t p)
  unfolding fix_insert
  fix_insert-Keeps t [] = paint-Keeps black t _ refl
  fix_insert-Keeps t (g ∷ []) =
      if_split (Keeps (walk (attach t g))) (frame_red g) _ _ (λ e. tt)
        (λ e. paint-Keeps black (attach t g) _ refl)
  fix_insert-Keeps t (g ∷ h ∷ p) =
      let all = walk (plug (attach (attach t g) h) p) in
      if_split (Keeps all) (not (frame_red g)) _ _ (λ e. paint-Keeps black _ all refl)
        (λ e.
          if_split (Keeps all) (is_red (sibling h)) _ _
            (λ q.
              rw (← walk-plug_same (recolor t g h) (attach (attach t g) h) p (walk-recolor t g h))
                (fix_insert-Keeps (recolor t g h) p))
            (λ q.
              bind-Keeps (walk (attach (attach t g) h)) all (rebalance t g h)
                (λ u. paint black (plug u p)) (rebalance-Keeps t g h)
                (λ u k.
                  paint-Keeps black (plug u p) all (walk-plug_same u (attach (attach t g) h) p k))))
