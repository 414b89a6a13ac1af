-- ===== src/RedBlack/Blocks.antt =====
-- The size and the blocks of the tree of infra/infra_ds.c.
use ai_ppdb.Base.{
  ℕ, ◌+◌, ◌<◌, ◌≡◌, refl, inl, inr, Bool, true, false, Option, none, some, Option-cases, arith,
  ◌==◌, ◌||◌, if◌then◌else◌, length,
}
use ai_ppdb.Base.Words.{word}
use ai_ppdb.Error.{ok, no_memory}
use ai_ppdb.System.{System, IsSystem}
use ai_ppdb.RedBlack.{Tree, leaf, branch, RbTree, find, insert_key}
use ai_ppdb.RedBlack.Spec.{Sorted, put}
use ai_ppdb.RedBlack.Search.{entry_of, items}
use ai_ppdb.RedBlack.Walk.{Keeps}
use ai_ppdb.RedBlack.Insertion.{insert_key-Keeps, insert_key-length}
use ai_ppdb.RedBlack.Balance.{Balanced}
use ai_ppdb.RedBlack.Laws.{Inserted, find-insert_key}
use ai_ppdb.RedBlack.Api.{
  Inserting, inserts, fault, clear_node, infra_rbtree_clear, infra_rbtree_destroy, finish_insert,
  infra_rbtree_insert,
}

-- Whether a node of the tree stands in the block.
abbrev pub holds : Tree → ℕ → Bool
holds leaf q = false
holds (branch c a e l r) q = q == a || (holds l q || holds r q)

module _ (y : System) (law : IsSystem y) where
  open y use {State, malloc, free, live}

  clear_node-live :
      (t : Tree) (s : State) (q : ℕ)
      → live (clear_node y t s) q ≡ (if holds t q then false else live s q)
  unfolding clear_node
  clear_node-live leaf s q = refl
  clear_node-live (branch c a e l r) s q = ground (
    arith,
    law.free-live a (clear_node y r (clear_node y l s)) q,
    clear_node-live r (clear_node y l s) q,
    clear_node-live l s q,
  )

  -- Destroy releases exactly the blocks of the tree and of its nodes: no other block changes.
  pub infra_rbtree_destroy-live :
      (a : ℕ) (t : RbTree) (s : State) (q : ℕ)
      → live (infra_rbtree_destroy y (some (a, t)) s) q
        ≡ (if q == a || holds t.root q then false else live s q)
  unfolding infra_rbtree_destroy infra_rbtree_clear
  infra_rbtree_destroy-live a t s q =
      ground (arith, law.free-live a (clear_node y t.root s) q, clear_node-live t.root s q)

-- A sorted red-black tree with its number of entries, below 2^64.
pub record IsTree (t : RbTree) : Type 0 where
  pub sorted : Sorted (items t.root)
  pub balanced : Balanced t.root
  pub counted : t.size ≡ length (items t.root)

-- An insertion ends without a crash: the tree is valid and finds the value under its key, else what
-- it found; or there was no memory, and the tree is as it was.
abbrev pub Inserts : (y : System) → ℕ → Option ℕ → RbTree → Inserting y → Type 0
Inserts y k v t fault = ⊥
Inserts y k v t (inserts ok u s) =
    IsTree u × ((j : ℕ) → find j u.root ≡ (if k == j then v else find j t.root))
Inserts y k v t (inserts err u s) = (err ≡ no_memory) × (u ≡ t)

finish_insert-Inserts :
    (y : System) (a k : ℕ) (v : Option ℕ) (t : RbTree) (r : Option Tree × Bool) (s : y.State)
    → IsTree t
    → t.size + 1 < word
    → Inserted k v t.root r.0
    → Keeps entry_of (put k v (items t.root)) r.0
    → length (put k v (items t.root)) ≡ length (items t.root) + (if r.1 then 1 else 0)
    → Inserts y k v t (finish_insert y a t r s)
unfolding finish_insert
finish_insert-Inserts y a k v t (none, added) s w h i p e = i
finish_insert-Inserts y a k v t (some u, true) s w h i p e =
    (record { sorted = i.1; balanced = i.0; counted = rw p (omega (arith, w.counted, e)) }, i.2)
finish_insert-Inserts y a k v t (some u, false) s w h i p e =
    (record { sorted = i.1; balanced = i.0; counted = rw p (omega (arith, w.counted, e)) }, i.2)

-- On a valid tree (sorted, red-black, size the number of its entries) with less than 2^64 - 1
-- entries, an insertion reads nothing through NULL: either there is no memory and the tree is
-- as it was, or it returns ok, the tree is valid, and finds the value under the key and under
-- every other key what it found before.
pub infra_rbtree_insert-Inserts :
    (y : System) (k : ℕ) (v : Option ℕ) (t : RbTree) (s : y.State)
    → IsTree t
    → t.size + 1 < word
    → Inserts y k v t (infra_rbtree_insert y t k v s)
unfolding infra_rbtree_insert
infra_rbtree_insert-Inserts y k v t s w h = elim (Option-cases (y.malloc 48 s).0) [
  | inl f ↦ rw (f, infra_rbtree_insert) (refl, refl)
  | inr (a, f) ↦
      rw (f, infra_rbtree_insert)
        (finish_insert-Inserts y a k v t (insert_key a k v t.root) (y.malloc 48 s).1 w h
          (find-insert_key a k v t.root w.sorted w.balanced)
          (insert_key-Keeps a k v t.root w.sorted) (insert_key-length a k v t.root w.sorted))
]
