-- ===== src/RedBlack/Insertion.antt =====
-- Insertion into the tree of infra/infra_ds.c, as insertion into the sorted list of its entries.
use ai_ppdb.Base.{
  ℕ, ◌≡◌, sym, List, [], ◌∷◌, ◌++◌, Option, arith, length, length-append, ◌+◌, if◌then◌else◌,
}
use ai_ppdb.RedBlack.{
  Entry, Tree, leaf, branch, Frame, plug, descend, insert_at, insert_key, create_node,
}
use ai_ppdb.RedBlack.Spec.{Sorted, put, put-between, put-replaces, Sorted-around, Below-append}
use ai_ppdb.RedBlack.Walk.{before, after, walk-plug, walk-plug_branch, Keeps, fix_insert-Keeps}
use ai_ppdb.RedBlack.Search.{entry_of, items, Arrives, descend-Arrives}

insert_at-Keeps :
    (a k : ℕ) (v : Option ℕ) (t : Tree) (r : Tree × List Frame)
    → Arrives k t r
    → Keeps entry_of (put k v (items t)) (insert_at a k v r).0
unfolding insert_at
insert_at-Keeps a k v t (leaf, p) s =
    let e : put k v (items t) ≡ items (plug (create_node a k v) p) = rw (← s.whole) (
      rw (walk-plug entry_of leaf p, walk-plug entry_of (create_node a k v) p)
        (put-between k v (before entry_of p) (after entry_of p) s.below s.above)) in
    rw e (fix_insert-Keeps entry_of (create_node a k v) p)
insert_at-Keeps a k v t (branch c b x l r, p) s =
    let around = Sorted-around (items l) x (items r) s.sorted in
    let lower = Below-append x.key (before entry_of p) (items l) (rw s.hits s.below) around.1.1.0 in
    let y : Entry = record x { value = v } in
    rw (← s.whole) (
      rw (← s.hits) (
        rw (walk-plug_branch entry_of c b x l r p, walk-plug_branch entry_of c b y l r p)
          (sym
            (put-replaces v (before entry_of p ++ items l) x (items r ++ after entry_of p) lower))))

-- If an insertion into a sorted tree has a result, the entries of the result, from left to
-- right, are those of the sorted list with the entry put in its place or its value replaced.
pub insert_key-Keeps :
    (a k : ℕ) (v : Option ℕ) (t : Tree)
    → Sorted (items t)
    → Keeps entry_of (put k v (items t)) (insert_key a k v t).0
unfolding insert_key
insert_key-Keeps a k v t s =
    insert_at-Keeps a k v t (descend k t []) (descend-Arrives k t [] tt tt s)

insert_at-length :
    (a k : ℕ) (v : Option ℕ) (t : Tree) (r : Tree × List Frame)
    → Arrives k t r
    → length (put k v (items t)) ≡ length (items t) + (if (insert_at a k v r).1 then 1 else 0)
unfolding insert_at
insert_at-length a k v t (leaf, p) s = rw (← s.whole) (
    rw
      (
        walk-plug entry_of leaf p,
        put-between k v (before entry_of p) (after entry_of p) s.below s.above,
      )
      (omega (
        arith,
        length-append (before entry_of p) (after entry_of p),
        length-append (before entry_of p) (record { key = k; value = v } ∷ after entry_of p),
      )))
insert_at-length a k v t (branch c b x l r, p) s =
    let around = Sorted-around (items l) x (items r) s.sorted in
    let lower = Below-append x.key (before entry_of p) (items l) (rw s.hits s.below) around.1.1.0 in
    let front = before entry_of p ++ items l in
    let back = items r ++ after entry_of p in
    rw (← s.whole) (
      rw (← s.hits) (
        rw (walk-plug_branch entry_of c b x l r p, put-replaces v front x back lower)
          (omega (
            arith,
            length-append front (x ∷ back),
            length-append front (record x { value = v } ∷ back),
          ))))

-- A new node is a new entry.
pub insert_key-length :
    (a k : ℕ) (v : Option ℕ) (t : Tree)
    → Sorted (items t)
    → length (put k v (items t)) ≡ length (items t) + (if (insert_key a k v t).1 then 1 else 0)
unfolding insert_key
insert_key-length a k v t s =
    insert_at-length a k v t (descend k t []) (descend-Arrives k t [] tt tt s)
