-- ===== src/RedBlack/Laws.antt =====
-- What the tree of infra/infra_ds.c promises: it is a map from keys to values, and flat.
use ai_ppdb.Base.{
  ℕ, zero, suc, ◌+◌, ◌*◌, ◌/◌, ◌^◌, ◌≤◌, ◌≡◌, sym, ◌∙◌, ap, Bool, List, [], ◌∷◌, Option, none, some,
  arith, if◌then◌else◌, ◌==◌, length, length-append,
}
use Prim.Native.Nat.{max}
use native.Mathlib.Nat.{pow-suc, pow-le-pow_right}
use ai_ppdb.RedBlack.{red, black, Entry, Tree, leaf, branch, descend, find, insert_key, is_red}
use ai_ppdb.RedBlack.Spec.{
  Sorted, put, erase, lookup, put-Sorted, erase-Sorted, lookup-put, lookup-erase,
}
use ai_ppdb.RedBlack.Walk.{Keeps}
use ai_ppdb.RedBlack.Search.{entry_of, items, find-lookup}
use ai_ppdb.RedBlack.Insertion.{insert_key-Keeps}
use ai_ppdb.RedBlack.Balance.{Good, Balanced, Balances}
use ai_ppdb.RedBlack.Place.{insert_key-Balances}
use ai_ppdb.RedBlack.Delete.{Removal, absent, broken, removed, remove_key}
use ai_ppdb.RedBlack.Unlink.{Leaves, takes_black_leaf, remove_key-Leaves}
use ai_ppdb.RedBlack.Erase.{Erases, remove_key-Erases}

-- There is a red-black tree that is sorted, and finds under `k` the value, else what `t` finds.
abbrev pub Inserted : ℕ → Option ℕ → Tree → Option Tree → Type 0
Inserted k v t none = ⊥
Inserted k v t (some u) =
    (Balanced u) × (Sorted (items u)) × ((j : ℕ) → find j u ≡ (if k == j then v else find j t))

find-same : (u : Tree) (l : List Entry) (j : ℕ) → items u ≡ l → Sorted l → find j u ≡ lookup j l
find-same u l j e s = find-lookup j u (rw e s) ∙ ap (lookup j) e

insert_key-both :
    (k : ℕ) (v : Option ℕ) (t : Tree) (o : Option Tree)
    → Sorted (items t)
    → Balances o
    → Keeps entry_of (put k v (items t)) o
    → Inserted k v t o
insert_key-both k v t none s b h = b
insert_key-both k v t (some u) s b h =
    let sorted = put-Sorted k v (items t) s in
    (
      b,
      rw h sorted,
      λ j.
          find-same u (put k v (items t)) j h sorted
          ∙ rw (find-lookup j t s) (lookup-put k v (items t) j s),
    )

-- After an insertion the key has its value, and every other key what it had.
pub find-insert_key :
    (a k : ℕ) (v : Option ℕ) (t : Tree)
    → Sorted (items t)
    → Balanced t
    → Inserted k v t (insert_key a k v t).0
find-insert_key a k v t s b =
    insert_key-both k v t (insert_key a k v t).0 s (insert_key-Balances a k v t b)
      (insert_key-Keeps a k v t s)

-- A removal ends without a crash: with the value that the key had and a sorted tree that finds what
-- `t` finds but under `k`, or with NULL where the key was not there.
abbrev pub Removed : ℕ → Tree → Removal → Type 0
Removed k t absent = find k t ≡ none
Removed k t broken = ⊥
Removed k t (removed v b u) =
    (v ≡ find k t) × (Sorted (items u)) × ((j : ℕ) → find j u ≡ (if k == j then none else find j t))

both-Removed :
    (k : ℕ) (t : Tree) (r : Removal) (spoiled : Bool)
    → Sorted (items t)
    → Leaves spoiled r
    → Erases (erase k (items t)) (lookup k (items t)) r
    → Removed k t r
both-Removed k t absent spoiled s l h = find-lookup k t s ∙ h
both-Removed k t broken spoiled s l h = l
both-Removed k t (removed v b u) spoiled s l h =
    let sorted = erase-Sorted k (items t) s in
    (
      h.1 ∙ sym (find-lookup k t s),
      rw h.0 sorted,
      λ j.
          find-same u (erase k (items t)) j h.0 sorted
          ∙ rw (find-lookup j t s) (lookup-erase k (items t) j s),
    )

-- On a sorted red-black tree a removal reads nothing through NULL; it returns the value of the
-- key, and leaves a sorted tree that finds nothing under the key and under every other key what
-- was found before.
pub find-remove_key :
    (k : ℕ) (t : Tree) → Sorted (items t) → Balanced t → Removed k t (remove_key k t)
find-remove_key k t s b =
    both-Removed k t (remove_key k t) (takes_black_leaf (descend k t [])) s
      (remove_key-Leaves k t b) (remove_key-Erases k t s)

abbrev pub depth : Tree → ℕ
depth leaf = 0
depth (branch c a e l r) = suc (max (depth l) (depth r))

Good-size : (t : Tree) (n : ℕ) → Good t n → 2 ^ n ≤ length (items t) + 1
Good-size leaf n g = rw g (omega arith)
Good-size (branch red a e l r) n g =
    omega (arith, length-append (items l) (e ∷ items r), Good-size l n g.2)
Good-size (branch black a e l r) zero g = absurd g
Good-size (branch black a e l r) (suc n) g = omega (
  arith,
  length-append (items l) (e ∷ items r),
  Good-size l n g.0,
  Good-size r n g.1,
  pow-suc 2 n,
)

Good-depth : (t : Tree) (n : ℕ) → Good t n → depth t ≤ n * 2 + (if is_red t then 1 else 0)
Good-depth leaf n g = omega arith
Good-depth (branch red a e l r) n g =
    ground (arith, Good-depth l n g.2, Good-depth r n g.3, g.0, g.1)
Good-depth (branch black a e l r) zero g = absurd g
Good-depth (branch black a e l r) (suc n) g = ground (arith, Good-depth l n g.0, Good-depth r n g.1)

-- In a red-black tree 2 to the power of half the depth is at most the number of entries plus 1.
pub depth-log : (t : Tree) → Balanced t → 2 ^ (depth t / 2) ≤ length (items t) + 1
depth-log t b =
    let d = Good-depth t b.0 b.1.0 in
    let s = Good-size t b.0 b.1.0 in
    let half : depth t / 2 ≤ b.0 = ground (arith, d, b.1.1) in
    omega (arith, s, pow-le-pow_right {n = 2} (omega arith) half)
