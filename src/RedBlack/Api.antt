-- ===== src/RedBlack/Api.antt =====
-- The public functions on the tree of infra/infra_ds.c, with their allocations.
use ai_ppdb.Base.{ℕ, Bool, true, false, Option, none, some}
use ai_ppdb.Base.Words.{add64, sub64}
use ai_ppdb.Error.{InfraError, ok, invalid_param, no_memory}
use ai_ppdb.System.{System}
use ai_ppdb.RedBlack.{Tree, leaf, branch, RbTree, insert_key}
use ai_ppdb.RedBlack.Delete.{Removal, absent, broken, removed, remove_key}

-- A crash is `fault`.
pub data Inserting (y : System) : Type 0 where
  fault : Inserting y
  inserts : InfraError → RbTree → y.State → Inserting y

pub data Removing (y : System) : Type 0 where
  fault : Removing y
  removes : Option ℕ → RbTree → y.State → Removing y

module _ (y : System) where
  open y use {State, malloc, free}

  -- The new tree's address, if there is one. `sizeof(infra_rbtree_t)` is 16.
  unfoldable pub infra_rbtree_create : Bool → State → InfraError × Option (ℕ × RbTree) × State
  infra_rbtree_create false s = (invalid_param, none, s)
  infra_rbtree_create true s =
      let (block, s') = malloc 16 s in
      elim block [
        | none ↦ (no_memory, none, s')
        | some a ↦ (ok, some (a, record { root = leaf; size = 0 }), s')
      ]

  unfoldable pub clear_node : Tree → State → State
  clear_node leaf s = s
  clear_node (branch c a e l r) s = free a (clear_node r (clear_node l s))

  unfoldable pub infra_rbtree_clear : RbTree → State → RbTree × State
  unfolding clear_node
  infra_rbtree_clear t s = (record { root = leaf; size = 0 }, clear_node t.root s)

  -- The tree at the address `a`; NULL is `none`.
  unfoldable pub infra_rbtree_destroy : Option (ℕ × RbTree) → State → State
  unfolding infra_rbtree_clear
  infra_rbtree_destroy none s = s
  infra_rbtree_destroy (some (a, t)) s = free a (infra_rbtree_clear t s).1

  -- The end of `infra_rbtree_insert`, the new node being at `a`: it is freed where the key was there.
  unfoldable pub finish_insert : ℕ → RbTree → Option Tree × Bool → State → Inserting y
  finish_insert a t (none, added) s = fault
  finish_insert a t (some u, true) s = inserts ok (record { root = u; size = add64 t.size 1 }) s
  finish_insert a t (some u, false) s = inserts ok (record t { root = u }) (free a s)

  -- `sizeof(infra_rbtree_node_t)` is 48.
  unfoldable pub infra_rbtree_insert : RbTree → ℕ → Option ℕ → State → Inserting y
  unfolding finish_insert
  infra_rbtree_insert t key value s =
      let (block, s') = malloc 48 s in
      elim block [
        | none ↦ inserts no_memory t s'
        | some a ↦ finish_insert a t (insert_key a key value t.root) s'
      ]

  unfoldable pub finish_remove : RbTree → Removal → State → Removing y
  finish_remove t absent s = removes none t s
  finish_remove t broken s = fault
  finish_remove t (removed v b u) s =
      removes v (record { root = u; size = sub64 t.size 1 }) (free b s)

  unfoldable pub infra_rbtree_remove : RbTree → ℕ → State → Removing y
  unfolding finish_remove
  infra_rbtree_remove t key s = finish_remove t (remove_key key t.root) s
