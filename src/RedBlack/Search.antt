-- ===== src/RedBlack/Search.antt =====
-- The search in the tree of infra/infra_ds.c, and the place of a key.
use ai_ppdb.Base.{ℕ, ◌≡◌, refl, sym, ◌∙◌, List, [], ◌∷◌, ◌++◌, Option, arith, if_split, ltb}
use ai_ppdb.RedBlack.{Entry, Tree, leaf, branch, Frame, on_left, on_right, plug, descend, find}
use ai_ppdb.RedBlack.Spec.{
  Below, Above, Sorted, lookup, Below-append, Above-append, Above-less, Below-more, Sorted-around,
  lookup-left, lookup-Below,
}
use ai_ppdb.RedBlack.Walk.{walk, before, after}

abbrev pub entry_of : ℕ → Entry → Entry
entry_of a e = e

-- The entries of a tree, from left to right.
abbrev pub items : Tree → List Entry
items t = walk entry_of t

-- In a sorted tree a search finds what the list of entries has.
pub find-lookup : (k : ℕ) (t : Tree) → Sorted (items t) → find k t ≡ lookup k (items t)
unfolding find
find-lookup k leaf h = refl
find-lookup k (branch c a e l r) h =
    let s = Sorted-around (items l) e (items r) h in
    if_split (λ (v : Option ℕ). v ≡ lookup k (items l ++ e ∷ items r)) (ltb k e.key) _ _
      (λ less.
        find-lookup k l s.0
        ∙ sym (
            lookup-left k (items l) (e ∷ items r)
              (ground arith, Above-less k e.key (items r) (ground arith) s.1.1.1)))
      (λ not_less.
        if_split (λ (v : Option ℕ). v ≡ lookup k (items l ++ e ∷ items r)) (ltb e.key k) _ _
          (λ more.
            find-lookup k r s.1.0
            ∙ sym (
                lookup-Below k (items l) (e ∷ items r)
                  (Below-more e.key k (items l) (ground arith) s.1.1.0)
                ∙ ground arith))
          (λ same.
            let q : e.key ≡ k = ground arith in
            rw (← q) (sym (lookup-Below e.key (items l) (e ∷ items r) s.1.1.0 ∙ ground arith))))

abbrev pub Hits : ℕ → Tree → Type 0
Hits k leaf = Unit {0}
Hits k (branch c a e l r) = e.key ≡ k

-- The node that was found, and the entries around it.
pub record Arrives (k : ℕ) (t : Tree) (r : Tree × List Frame) : Type 0 where
  pub whole : plug r.0 r.1 ≡ t
  pub below : Below k (before entry_of r.1)
  pub above : Above k (after entry_of r.1)
  pub sorted : Sorted (items r.0)
  pub hits : Hits k r.0

pub descend-Arrives :
    (k : ℕ) (t : Tree) (p : List Frame)
    → Below k (before entry_of p)
    → Above k (after entry_of p)
    → Sorted (items t)
    → Arrives k (plug t p) (descend k t p)
unfolding descend
descend-Arrives k leaf p b a s = record {
  whole = refl;
  below = b;
  above = a;
  sorted = s;
  hits = tt;
}
descend-Arrives k (branch c x e l r) p b a h =
    let s = Sorted-around (items l) e (items r) h in
    if_split (Arrives k (plug (branch c x e l r) p)) (ltb k e.key) _ _
      (λ less.
        descend-Arrives k l (on_left c x e r ∷ p) b
          (
            ground arith,
            Above-append k (items r) (after entry_of p)
                (Above-less k e.key (items r) (ground arith) s.1.1.1) a,
          )
          s.0)
      (λ not_less.
        if_split (Arrives k (plug (branch c x e l r) p)) (ltb e.key k) _ _
          (λ more.
            descend-Arrives k r (on_right c x e l ∷ p)
              (Below-append k (before entry_of p) _ b (
                Below-append k (items l) (e ∷ [])
                  (Below-more e.key k (items l) (ground arith) s.1.1.0) (ground arith, tt)))
              a s.1.0)
          (λ same. record { whole = refl; below = b; above = a; sorted = h; hits = ground arith }))
