-- ===== src/RedBlack/Erase.antt =====
-- Removal from the tree of infra/infra_ds.c, as removal from the sorted list of its entries.
use ai_ppdb.Base.{ℕ, ◌≡◌, refl, List, [], ◌∷◌, ◌++◌, Option, none, some, arith}
use ai_ppdb.RedBlack.{
  Color, Entry, Tree, leaf, branch, Frame, on_left, on_right, attach, plug, descend, find,
}
use ai_ppdb.RedBlack.Delete.{
  leftmost, Removal, absent, broken, removed, removal, splice, take_next, remove_at, remove_key,
}
use ai_ppdb.RedBlack.Spec.{
  Sorted, lookup, erase, erase-finds, erase-misses, Sorted-around, Below-append,
}
use ai_ppdb.RedBlack.Walk.{before, after, walk-plug, walk-plug_branch, Keeps}
use ai_ppdb.RedBlack.Search.{entry_of, find-lookup, items, Arrives, descend-Arrives}
use mathlib.Core.List.{append_assoc, append-nil}
use ai_ppdb.RedBlack.Fixup.{splice-Keeps}

abbrev NoLeft : Tree → Type 0
NoLeft leaf = Unit {0}
NoLeft (branch c a e l r) = items l ≡ []

-- The leftmost node of a tree has nothing before it.
record Leads (t : Tree) (r : Tree × List Frame) : Type 0 where
  whole : plug r.0 r.1 ≡ t
  first : before entry_of r.1 ≡ []
  bare : NoLeft r.0

leftmost-Leads :
    (t : Tree) (p : List Frame) → before entry_of p ≡ [] → Leads (plug t p) (leftmost t p)
unfolding leftmost
leftmost-Leads leaf p h = record { whole = refl; first = h; bare = tt }
leftmost-Leads (branch c a e leaf r) p h = record { whole = refl; first = h; bare = refl }
leftmost-Leads (branch c a e (branch d b f l m) r) p h =
    leftmost-Leads (branch d b f l m) (on_left c a e r ∷ p) h

-- Where a removal ends, its tree has these entries, and its value is this.
abbrev pub Erases : List Entry → Option ℕ → Removal → Type 0
Erases l v absent = v ≡ none
Erases l v broken = Unit
Erases l v (removed u b t) = (items t ≡ l) × (u ≡ v)

removal-Erases :
    (l : List Entry) (v : Option ℕ) (b : ℕ) (o : Option Tree)
    → Keeps entry_of l o
    → Erases l v (removal v b o)
removal-Erases l v b none h = tt
removal-Erases l v b (some t) h = (h, refl)

plug-append : (t : Tree) (q p : List Frame) → plug t (q ++ p) ≡ plug (plug t q) p
plug-append t [] p = refl
plug-append t (f ∷ q) p = plug-append (attach t f) q p

take_next-Erases :
    (c : Color) (a : ℕ) (e : Entry) (l t : Tree) (p : List Frame) (y : Tree × List Frame)
    → Leads t y
    → Erases
        ((before entry_of p ++ items l) ++ (items t ++ after entry_of p))
        e.value
        (take_next c a e l p y)
unfolding take_next
take_next-Erases c a e l t p (leaf, q) h = tt
take_next-Erases c a e l t p (branch d b f m r, q) h =
    let path = q ++ on_right c a f l ∷ p in
    let left_over : items (plug r path)
        ≡ (before entry_of p ++ items l) ++ (items t ++ after entry_of p) =
      rw (plug-append r q (on_right c a f l ∷ p), ← h.whole)
        (rw
          (
            walk-plug_branch entry_of c a f l (plug r q) p,
            walk-plug_branch entry_of d b f m r q,
            walk-plug entry_of r q,
          )
          (rw (h.first, h.bare) refl)) in
    removal-Erases _ e.value b (splice d r path) (rw (← left_over) (splice-Keeps entry_of d r path))

one_child-Erases :
    (c : Color) (a : ℕ) (e : Entry) (x : Tree) (p : List Frame)
    → Erases
        (before entry_of p ++ (items x ++ after entry_of p))
        e.value
        (removal e.value a (splice c x p))
one_child-Erases c a e x p =
    removal-Erases _ e.value a (splice c x p)
      (rw (← walk-plug entry_of x p) (splice-Keeps entry_of c x p))

-- What is left of the entries where the node's own is taken out.
abbrev without : Tree × List Frame → List Entry
without (leaf, p) = before entry_of p ++ after entry_of p
without (branch c a e l r, p) = (before entry_of p ++ items l) ++ (items r ++ after entry_of p)

abbrev value_at : Tree → Option ℕ
value_at leaf = none
value_at (branch c a e l r) = e.value

remove_at-Erases : (r : Tree × List Frame) → Erases (without r) (value_at r.0) (remove_at r)
unfolding remove_at
remove_at-Erases (leaf, p) = refl
remove_at-Erases (branch c a e leaf r, p) =
    rw (append-nil (before entry_of p)) (one_child-Erases c a e r p)
remove_at-Erases (branch c a e (branch d b f l m) leaf, p) =
    rw (append_assoc (before entry_of p) (items (branch d b f l m)) (after entry_of p))
      (one_child-Erases c a e (branch d b f l m) p)
remove_at-Erases (branch c a e (branch d b f l m) (branch i j k n o), p) =
    take_next-Erases c a e (branch d b f l m) (branch i j k n o) p (leftmost (branch i j k n o) [])
      (leftmost-Leads (branch i j k n o) [] refl)

erase-place :
    (k : ℕ) (t : Tree) (r : Tree × List Frame) → Arrives k t r → erase k (items t) ≡ without r
erase-place k t (leaf, p) s = rw (← s.whole) (
    rw (walk-plug entry_of leaf p)
      (erase-misses k (before entry_of p) (after entry_of p) s.below s.above))
erase-place k t (branch c a e l r, p) s =
    let around = Sorted-around (items l) e (items r) s.sorted in
    let lower = Below-append e.key (before entry_of p) (items l) (rw s.hits s.below) around.1.1.0 in
    rw (← s.whole) (
      rw (← s.hits) (
        rw (walk-plug_branch entry_of c a e l r p)
          (erase-finds (before entry_of p ++ items l) e (items r ++ after entry_of p) lower)))

find-descend : (k : ℕ) (t : Tree) (p : List Frame) → find k t ≡ value_at (descend k t p).0
unfolding find descend
find-descend k leaf p = refl
find-descend k (branch c a e l r) p =
    ground (arith, find-descend k l (on_left c a e r ∷ p), find-descend k r (on_right c a e l ∷ p))

-- If a removal from a sorted tree ends, the entries are those without the key.
pub remove_key-Erases :
    (k : ℕ) (t : Tree)
    → Sorted (items t)
    → Erases (erase k (items t)) (lookup k (items t)) (remove_key k t)
unfolding remove_key
remove_key-Erases k t s =
    let arrives = descend-Arrives k t [] tt tt s in
    rw (erase-place k t (descend k t []) arrives, ← find-lookup k t s, find-descend k t [])
      (remove_at-Erases (descend k t []))
