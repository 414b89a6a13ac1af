-- ===== src/RedBlack/Fixup.antt =====
-- The nodes of a tree of infra/infra_ds.c keep their order in the fixup after a removal.
use ai_ppdb.Base.{ℕ, ◌≡◌, refl, not, List, [], ◌∷◌, ◌++◌, Option, none, some, ◌&&◌, if_split}
use ai_ppdb.RedBlack.{
  Color, red, black, Entry, Tree, leaf, branch, Frame, on_left, on_right, plug, paint, eq_color,
  is_red, rotate_left, rotate_right,
}
use ai_ppdb.RedBlack.Delete.{
  Settled, crashes, moves, turned, is_leaf, turn_left, turn_right, ends_with, settle_left,
  settle_right, settled, red_sibling_left, red_sibling_right, fix_delete, splice,
}
use ai_ppdb.RedBlack.Walk.{
  walk, walk-plug_same, Keeps, bind-Keeps, paint-Keeps, rotate_left-Keeps, rotate_right-Keeps,
}
use mathlib.Core.List.{append_assoc}

module _ {B : Type 0} (f : ℕ → Entry → B) where
  turn_left-Keeps :
      (c : Color) (a : ℕ) (e : Entry) (t : Tree) (o : Option Tree) (l : List B)
      → Keeps f l o
      → Keeps f (walk f t ++ f a e ∷ l) (turn_left c a e t o)
  unfolding turn_left rotate_left
  turn_left-Keeps c a e t none l h = tt
  turn_left-Keeps c a e t (some leaf) l h = tt
  turn_left-Keeps c a e t (some (branch d b g m leaf)) l h = tt
  turn_left-Keeps c a e t (some (branch d b g m (branch i j k n o))) l h =
      rw (← h) (simp (append_assoc))

  turn_right-Keeps :
      (c : Color) (a : ℕ) (e : Entry) (t : Tree) (o : Option Tree) (l : List B)
      → Keeps f l o
      → Keeps f (l ++ f a e ∷ walk f t) (turn_right c a e t o)
  unfolding turn_right rotate_right
  turn_right-Keeps c a e t none l h = tt
  turn_right-Keeps c a e t (some leaf) l h = tt
  turn_right-Keeps c a e t (some (branch d b g leaf r)) l h = tt
  turn_right-Keeps c a e t (some (branch d b g (branch i j k n o) r)) l h =
      rw (← h) (simp (append_assoc))

  -- What a round leaves, with the sibling walked as `m` and all of the parent's tree as `l`.
  abbrev Settles : List B → List B → Settled → Type 0
  Settles l m crashes = Unit {0}
  Settles l m (moves s) = walk f s ≡ m
  Settles l m (turned u) = walk f u ≡ l

  ends-Settles : (l m : List B) (o : Option Tree) → Keeps f l o → Settles l m (ends_with o)
  ends-Settles l m none h = tt
  ends-Settles l m (some u) h = h

  left_ends :
      (c : Color) (a : ℕ) (e : Entry) (t : Tree) (o : Option Tree) (m : List B)
      → Keeps f m o
      → Settles (walk f t ++ f a e ∷ m) m (ends_with (turn_left c a e t o))
  left_ends c a e t o m h =
      ends-Settles (walk f t ++ f a e ∷ m) m (turn_left c a e t o) (turn_left-Keeps c a e t o m h)

  right_ends :
      (c : Color) (a : ℕ) (e : Entry) (t : Tree) (o : Option Tree) (m : List B)
      → Keeps f m o
      → Settles (m ++ f a e ∷ walk f t) m (ends_with (turn_right c a e t o))
  right_ends c a e t o m h =
      ends-Settles (m ++ f a e ∷ walk f t) m (turn_right c a e t o) (turn_right-Keeps c a e t o m h)

  settle_left-Settles :
      (c : Color) (a : ℕ) (e : Entry) (t s : Tree)
      → Settles (walk f t ++ f a e ∷ walk f s) (walk f s) (settle_left c a e t s)
  unfolding settle_left
  settle_left-Settles c a e t leaf = tt
  settle_left-Settles c a e t (branch d b g leaf r) = tt
  settle_left-Settles c a e t (branch d b g (branch x i u m n) leaf) = tt
  settle_left-Settles c a e t (branch d b g (branch x i u m n) (branch y j v o q)) =
      let s = branch d b g (branch x i u m n) (branch y j v o q) in
      let P : Settled → Type 0 = Settles (walk f t ++ f a e ∷ walk f s) (walk f s) in
      if_split P (eq_color x black && eq_color y black) _ _ (λ both. refl)
        (λ one.
          if_split P (eq_color y black) _ _
            (λ far.
              let bent = branch red b g (branch black i u m n) (branch y j v o q) in
              left_ends c a e t (rotate_right bent) (walk f s)
                (rotate_right-Keeps f bent (walk f s) refl))
            (λ near. left_ends c a e t (some s) (walk f s) refl))

  settle_right-Settles :
      (c : Color) (a : ℕ) (e : Entry) (t s : Tree)
      → Settles (walk f s ++ f a e ∷ walk f t) (walk f s) (settle_right c a e t s)
  unfolding settle_right
  settle_right-Settles c a e t leaf = tt
  settle_right-Settles c a e t (branch d b g leaf r) = tt
  settle_right-Settles c a e t (branch d b g (branch x i u m n) leaf) = tt
  settle_right-Settles c a e t (branch d b g (branch x i u m n) (branch y j v o q)) =
      let s = branch d b g (branch x i u m n) (branch y j v o q) in
      let P : Settled → Type 0 = Settles (walk f s ++ f a e ∷ walk f t) (walk f s) in
      if_split P (eq_color x black && eq_color y black) _ _ (λ both. refl)
        (λ one.
          if_split P (eq_color x black) _ _
            (λ far.
              let bent = branch red b g (branch x i u m n) (branch black j v o q) in
              right_ends c a e t (rotate_left bent) (walk f s)
                (rotate_left-Keeps f bent (walk f s) refl))
            (λ near. right_ends c a e t (some s) (walk f s) refl))

  settled-Keeps :
      (l m all : List B) (w : Settled) (up : Tree → Option Tree) (p : List Frame)
      → Settles l m w
      → ((s : Tree) → walk f s ≡ m → Keeps f all (up s))
      → ((u : Tree) → walk f u ≡ l → walk f (plug u p) ≡ all)
      → Keeps f all (settled w up p)
  settled-Keeps l m all crashes up p h k q = tt
  settled-Keeps l m all (moves s) up p h k q = k s h
  settled-Keeps l m all (turned u) up p h k q = paint-Keeps f black (plug u p) all (q u h)

  red_sibling_left-Keeps :
      (c : Color) (a : ℕ) (e : Entry) (t s : Tree) (p : List Frame)
      → Keeps f (walk f (plug (branch c a e t s) p)) (red_sibling_left a e t s p)
  unfolding red_sibling_left
  red_sibling_left-Keeps c a e t leaf p = tt
  red_sibling_left-Keeps c a e t (branch d b g l r) p =
      let whole = branch c a e t (branch d b g l r) in
      let q = on_left black b g r ∷ p in
      let all = walk f (plug whole p) in
      settled-Keeps (walk f t ++ f a e ∷ walk f l) (walk f l) all (settle_left red a e t l)
        (λ s. some (plug (branch black a e t s) q)) q (settle_left-Settles red a e t l)
        (λ s h.
          walk-plug_same f (branch black b g (branch black a e t s) r) whole p
            (rw h (simp (append_assoc))))
        (λ u h. walk-plug_same f (branch black b g u r) whole p (rw h (simp (append_assoc))))

  red_sibling_right-Keeps :
      (c : Color) (a : ℕ) (e : Entry) (t s : Tree) (p : List Frame)
      → Keeps f (walk f (plug (branch c a e s t) p)) (red_sibling_right a e t s p)
  unfolding red_sibling_right
  red_sibling_right-Keeps c a e t leaf p = tt
  red_sibling_right-Keeps c a e t (branch d b g l r) p =
      let whole = branch c a e (branch d b g l r) t in
      let q = on_right black b g l ∷ p in
      let all = walk f (plug whole p) in
      settled-Keeps (walk f r ++ f a e ∷ walk f t) (walk f r) all (settle_right red a e t r)
        (λ s. some (plug (branch black a e s t) q)) q (settle_right-Settles red a e t r)
        (λ s h.
          walk-plug_same f (branch black b g l (branch black a e s t)) whole p
            (rw h (simp (append_assoc))))
        (λ u h. walk-plug_same f (branch black b g l u) whole p (rw h (simp (append_assoc))))

  fix_delete-Keeps : (t : Tree) (p : List Frame) → Keeps f (walk f (plug t p)) (fix_delete t p)
  unfolding fix_delete
  fix_delete-Keeps t [] = paint-Keeps f black t (walk f t) refl
  fix_delete-Keeps t (on_left c a e s ∷ p) =
      let all = walk f (plug (branch c a e t s) p) in
      if_split (Keeps f all) (is_red t) _ _
        (λ x.
          bind-Keeps f (walk f t) all (paint black t) (λ u. some (plug u (on_left c a e s ∷ p)))
            (paint-Keeps f black t (walk f t) refl)
            (λ u h. walk-plug_same f u t (on_left c a e s ∷ p) h))
        (λ y.
          if_split (Keeps f all) (is_red s) _ _ (λ z. red_sibling_left-Keeps c a e t s p)
            (λ z.
              settled-Keeps (walk f t ++ f a e ∷ walk f s) (walk f s) all (settle_left c a e t s)
                (λ s'. fix_delete (branch c a e t s') p) p (settle_left-Settles c a e t s)
                (λ s' h.
                  rw (← walk-plug_same f (branch c a e t s') (branch c a e t s) p (rw h refl))
                    (fix_delete-Keeps (branch c a e t s') p))
                (λ u h. walk-plug_same f u (branch c a e t s) p h)))
  fix_delete-Keeps t (on_right c a e s ∷ p) =
      let all = walk f (plug (branch c a e s t) p) in
      if_split (Keeps f all) (is_red t) _ _
        (λ x.
          bind-Keeps f (walk f t) all (paint black t) (λ u. some (plug u (on_right c a e s ∷ p)))
            (paint-Keeps f black t (walk f t) refl)
            (λ u h. walk-plug_same f u t (on_right c a e s ∷ p) h))
        (λ y.
          if_split (Keeps f all) (is_red s) _ _ (λ z. red_sibling_right-Keeps c a e t s p)
            (λ z.
              settled-Keeps (walk f s ++ f a e ∷ walk f t) (walk f s) all (settle_right c a e t s)
                (λ s'. fix_delete (branch c a e s' t) p) p (settle_right-Settles c a e t s)
                (λ s' h.
                  rw (← walk-plug_same f (branch c a e s' t) (branch c a e s t) p (rw h refl))
                    (fix_delete-Keeps (branch c a e s' t) p))
                (λ u h. walk-plug_same f u (branch c a e s t) p h)))

  pub splice-Keeps :
      (c : Color) (x : Tree) (p : List Frame) → Keeps f (walk f (plug x p)) (splice c x p)
  unfolding splice
  splice-Keeps c x p =
      if_split (Keeps f (walk f (plug x p))) (eq_color c black && not (is_leaf x)) _ _
        (λ e. fix_delete-Keeps x p) (λ e. refl)
