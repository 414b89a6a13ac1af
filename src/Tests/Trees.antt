-- ===== src/Tests/Trees.antt =====
-- The red-black tree at concrete inputs.
use ai_ppdb.Base.{
  ℕ, Option, ◌≡◌, refl, Bool, true, false, List, [], ◌∷◌, some, none, arith, if◌then◌else◌, ◌==◌,
  ◌||◌,
}
use ai_ppdb.RedBlack.{
  black, Entry, Tree, leaf, branch, RbTree, insert_key, insert_at, descend, fix_insert, recolor,
  rebalance, turn_out, rotate_up, rotate_left, rotate_right,
}
use ai_ppdb.RedBlack.Spec.{Sorted}
use ai_ppdb.RedBlack.Search.{items}
use ai_ppdb.RedBlack.Balance.{Balanced}
use ai_ppdb.RedBlack.Delete.{
  Removal, absent, broken, removed, leftmost, remove_key, remove_at, take_next, splice, fix_delete,
  settle_left, settle_right, red_sibling_left, red_sibling_right, turn_left, turn_right,
}
use ai_ppdb.RedBlack.Unlink.{Leaves, takes_black_leaf, remove_key-Leaves}
use ai_ppdb.RedBlack.Laws.{Removed, find-remove_key}
use ai_ppdb.RedBlack.Api.{infra_rbtree_insert, infra_rbtree_destroy}
use ai_ppdb.RedBlack.Blocks.{
  IsTree, Inserts, infra_rbtree_insert-Inserts, infra_rbtree_destroy-live, holds,
}
use ai_ppdb.Tests.Machine.{Desk, machine, machine-IsSystem}

abbrev pair : ℕ → ℕ → Entry
pair k v = record { key = k; value = some v }

abbrev ten_to_thirty : Tree
ten_to_thirty =
    branch black 1 (pair 20 5) (branch black 2 (pair 10 6) leaf leaf)
      (branch black 3 (pair 30 7) leaf leaf)

ten_to_thirty-Sorted : Sorted (items ten_to_thirty)
ten_to_thirty-Sorted = ((omega arith, (omega arith, tt)), ((omega arith, tt), (tt, tt)))

ten_to_thirty-Balanced : Balanced ten_to_thirty
ten_to_thirty-Balanced = (2, (((refl, refl), (refl, refl)), refl))

abbrev wood : RbTree
wood = record { root = ten_to_thirty; size = 3 }

wood-IsTree : IsTree wood
wood-IsTree = record {
  sorted = ten_to_thirty-Sorted;
  balanced = ten_to_thirty-Balanced;
  counted = refl;
}

abbrev desk : Desk
desk = record { next = 9; held = λ p. true; files = λ d. false }

infra_rbtree_insert-Inserts_example :
    Inserts machine 25 (some 8) wood (infra_rbtree_insert machine wood 25 (some 8) desk)
infra_rbtree_insert-Inserts_example =
    infra_rbtree_insert-Inserts machine 25 (some 8) wood desk wood-IsTree (omega arith)

find-remove_key_example : Removed 20 ten_to_thirty (remove_key 20 ten_to_thirty)
find-remove_key_example =
    find-remove_key 20 ten_to_thirty ten_to_thirty-Sorted ten_to_thirty-Balanced

-- The black node of the key 30 is taken out of its place: what is left is no red-black tree.
remove_key-Leaves_example :
    Leaves (takes_black_leaf (descend 20 ten_to_thirty [])) (remove_key 20 ten_to_thirty)
remove_key-Leaves_example = remove_key-Leaves 20 ten_to_thirty ten_to_thirty-Balanced

spoils : takes_black_leaf (descend 20 ten_to_thirty []) ≡ true
unfolding descend leftmost
spoils = refl

infra_rbtree_destroy-live_example :
    machine.live (infra_rbtree_destroy machine (some (7, wood)) desk) 3
    ≡ (if 3 == 7 || holds ten_to_thirty 3 then false else true)
infra_rbtree_destroy-live_example = infra_rbtree_destroy-live machine machine-IsSystem 7 wood desk 3

abbrev or_same : Tree → Option Tree → Tree
or_same t none = t
or_same t (some u) = u

abbrev left_over : Tree → Removal → Tree
left_over t absent = t
left_over t broken = t
left_over t (removed v b u) = u

-- Insertions (`true`) and removals, one after another.
abbrev run : List (Bool × ℕ) → Tree → Tree
run [] t = t
run ((true, k) ∷ l) t = run l (or_same t (insert_key k k none t).0)
run ((false, k) ∷ l) t = run l (left_over t (remove_key k t))

-- After these steps the removal of 4 reads a child of a sibling that has none.
remove_crashes :
    remove_key 4 (
      run
        ((true, 7)
          ∷ (true, 3)
          ∷ (true, 5)
          ∷ (true, 8)
          ∷ (false, 3)
          ∷ (true, 1)
          ∷ (false, 5)
          ∷ (true, 4)
          ∷ (true, 2)
          ∷ [])
        leaf)
    ≡ broken
unfolding remove_key remove_at take_next splice fix_delete settle_left settle_right red_sibling_left
    red_sibling_right leftmost descend insert_key insert_at fix_insert recolor rebalance turn_out
    rotate_up rotate_left rotate_right turn_left turn_right
remove_crashes = refl
