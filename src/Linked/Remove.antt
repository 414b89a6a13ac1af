-- ===== src/Linked/Remove.antt =====
-- `infra_list_remove` of infra/infra_ds.c.
use ai_ppdb.Base.{
  ℕ, ◌<◌, ◌≡◌, refl, sym, List, [], ◌∷◌, ◌++◌, Option, none, some, arith, length-append,
  if◌then◌else◌, is_null, subst,
}
use ai_ppdb.Base.Words.{word}
use ai_ppdb.Linked.{Cell, Store, LinkedList, store_cell, set_next, set_prev, unlink}
use ai_ppdb.Linked.Chain.{
  Entry, Chain, Absent, Distinct, Holds, Chain-frame, last_address, last_address-ne, Absent-left,
  Absent-right, Distinct-without,
}

-- `p->next = q` and `q->prev = p`, where either may be NULL.
abbrev relink : Store → Option ℕ → Option ℕ → Store
relink h p q = set_prev q p (set_next p q h)

-- `before` is no node of the sequence.
abbrev Outside : Option ℕ → List Entry → Type 0
Outside none xs = Unit {0}
Outside (some p) xs = Absent p xs

-- The node at `b` put behind `before`.
relink-first :
    (h : Store) (before q last : Option ℕ) (b : ℕ) (u : Option ℕ) (ys : List Entry)
    → Outside before ((b, u) ∷ ys)
    → Absent b ys
    → Chain h q (some b) ((b, u) ∷ ys) last
    → Chain (relink h before (some b)) before (some b) ((b, u) ∷ ys) last
relink-first h none q last b u ys out once k =
    let c = h b in
    let c' : Cell = record c { prev = none } in
    let at_b : store_cell b c' h b ≡ c' = ground arith in
    let rest = Chain-frame h b c' (some b) c.next ys last once k.3 in
    rw at_b (refl, k.1, refl, rest)
relink-first h (some p) q last b u ys out once k =
    let d = h p in
    let d' : Cell = record d { next = some b } in
    let h₁ = store_cell p d' h in
    let c = h b in
    let c₁ = h₁ b in
    let c' : Cell = record c₁ { prev = some p } in
    let at_b : store_cell b c' h₁ b ≡ record c { prev = some p } = ground (arith, out.0) in
    let rest = Chain-frame h p d' (some b) c.next ys last out.1 k.3 in
    let rest' = Chain-frame h₁ b c' (some b) c.next ys last once rest in
    rw at_b (refl, k.1, refl, rest')

-- Taking out the last node, at `n`: the one before it is the new last.
relink-last :
    (h : Store) (before from last : Option ℕ) (a : ℕ) (w : Option ℕ) (xs : List Entry) (n : ℕ)
    (v : Option ℕ)
    → Absent a (xs ++ (n, v) ∷ [])
    → Distinct (xs ++ (n, v) ∷ [])
    → Chain h before from ((a, w) ∷ (xs ++ (n, v) ∷ [])) last
    → Chain
        (relink h (some (last_address a xs)) none)
        before
        from
        ((a, w) ∷ xs)
        (some (last_address a xs))
relink-last h before from last a w [] n v once d k =
    let c = h a in
    let at_a : relink h (some a) none a ≡ record c { next = none } = ground arith in
    rw at_a (k.0, k.1, k.2, (refl, refl))
relink-last h before from last a w ((b, u) ∷ xs) n v once d k =
    let z = last_address b xs in
    let at_a : relink h (some z) none a ≡ h a =
      ground (arith, last_address-ne a b xs once.0 (Absent-left a xs ((n, v) ∷ []) once.1)) in
    let rest = relink-last h (some a) (h a).next last b u xs n v d.0 d.1 k.3 in
    rw at_a (k.0, k.1, k.2, rest)

-- Taking out the node at `n` from between two others.
relink-middle :
    (h : Store) (before from last : Option ℕ) (a : ℕ) (w : Option ℕ) (xs : List Entry) (n : ℕ)
    (v : Option ℕ) (b : ℕ) (u : Option ℕ) (ys : List Entry)
    → Absent a (xs ++ (n, v) ∷ (b, u) ∷ ys)
    → Distinct (xs ++ (n, v) ∷ (b, u) ∷ ys)
    → Chain h before from ((a, w) ∷ (xs ++ (n, v) ∷ (b, u) ∷ ys)) last
    → Chain
        (relink h (some (last_address a xs)) (some b))
        before
        from
        ((a, w) ∷ (xs ++ (b, u) ∷ ys))
        last
relink-middle h before from last a w [] n v b u ys once d k =
    let c = h a in
    let at_a : relink h (some a) (some b) a ≡ record c { next = some b } =
      ground (arith, once.1.0) in
    let after = k.3.3 in
    let rest =
      relink-first h (some a) (some n) last b u ys once.1 d.1.0 (refl, after.1, after.2, after.3) in
    rw at_a (k.0, k.1, k.2, rest)
relink-middle h before from last a w ((e, x) ∷ xs) n v b u ys once d k =
    let z = last_address e xs in
    let out = Absent-right a xs ((n, v) ∷ (b, u) ∷ ys) once.1 in
    let left = Absent-left a xs ((n, v) ∷ (b, u) ∷ ys) once.1 in
    let at_a : relink h (some z) (some b) a ≡ h a =
      ground (arith, last_address-ne a e xs once.0 left, out.1.0) in
    let rest = relink-middle h (some a) (h a).next last e x xs n v b u ys d.0 d.1 k.3 in
    rw at_a (k.0, k.1, k.2, rest)

-- The neighbours that the node at `n` is linked to.
node-links :
    (h : Store) (before from last : Option ℕ) (a : ℕ) (w : Option ℕ) (xs : List Entry) (n : ℕ)
    (v : Option ℕ) (ys : List Entry)
    → Chain h before from ((a, w) ∷ (xs ++ (n, v) ∷ ys)) last
    → ((h n).prev ≡ some (last_address a xs)) × Chain h (some n) (h n).next ys last
node-links h before from last a w [] n v ys k = (k.3.2, k.3.3)
node-links h before from last a w ((e, x) ∷ xs) n v ys k =
    node-links h (some a) (h a).next last e x xs n v ys k.3

-- The list that `unlink` makes of a node with the links `p` and `q`.
abbrev Relinked : LinkedList → Store → List Entry → Option ℕ → Option ℕ → Type 0
Relinked l h zs p q =
    Chain (relink h p q) none (if is_null p then q else l.head) zs (if is_null q then p else l.tail)

with_links :
    (l : LinkedList) (h : Store) (zs : List Entry) (p p' q q' : Option ℕ)
    → p ≡ p'
    → q ≡ q'
    → Relinked l h zs p' q'
    → Relinked l h zs p q
with_links l h zs p p' q q' e f k =
    subst (λ o. Relinked l h zs o q) (sym e) (subst (λ o. Relinked l h zs p' o) (sym f) k)

append_nil : (xs : List Entry) → xs ++ [] ≡ xs
append_nil [] = refl
append_nil (x ∷ xs) = rw (append_nil xs) refl

unlink-Chain :
    (l : LinkedList) (h : Store) (xs : List Entry) (n : ℕ) (v : Option ℕ) (ys : List Entry)
    → Chain h none l.head (xs ++ (n, v) ∷ ys) l.tail
    → Distinct (xs ++ (n, v) ∷ ys)
    → Relinked l h (xs ++ ys) (h n).prev (h n).next
unlink-Chain l h [] n v [] k d = with_links l h [] _ none _ none k.2 k.3.0 (refl, refl)
unlink-Chain l h [] n v ((b, u) ∷ ys) k d =
    let after = k.3 in
    with_links l h ((b, u) ∷ ys) _ none _ (some b) k.2 after.0
      (relink-first h none (some n) l.tail b u ys tt d.1.0 (refl, after.1, after.2, after.3))
unlink-Chain l h ((a, w) ∷ xs) n v [] k d =
    let (before, after) = node-links h none l.head l.tail a w xs n v [] k in
    subst (λ zs. Relinked l h ((a, w) ∷ zs) (h n).prev (h n).next) (sym (append_nil xs))
      (with_links l h ((a, w) ∷ xs) _ (some (last_address a xs)) _ none before after.0
        (relink-last h none l.head l.tail a w xs n v d.0 d.1 k))
unlink-Chain l h ((a, w) ∷ xs) n v ((b, u) ∷ ys) k d =
    let (before, after) = node-links h none l.head l.tail a w xs n v ((b, u) ∷ ys) k in
    with_links l h ((a, w) ∷ (xs ++ (b, u) ∷ ys)) _ (some (last_address a xs)) _ (some b) before
      after.0 (relink-middle h none l.head l.tail a w xs n v b u ys d.0 d.1 k)

-- Removing a node of a list that holds a sequence, with a size below 2^64, leaves a list that
-- holds the sequence without that node: the others in their order, linked in both directions.
pub unlink-Holds :
    (l : LinkedList) (h : Store) (xs : List Entry) (n : ℕ) (v : Option ℕ) (ys : List Entry)
    → Holds l h (xs ++ (n, v) ∷ ys)
    → l.size < word
    → Holds (unlink n l h).0 (unlink n l h).1 (xs ++ ys)
unfolding unlink
unlink-Holds l h xs n v ys k small = record {
  linked = unlink-Chain l h xs n v ys k.linked k.distinct;
  distinct = Distinct-without n v xs ys k.distinct;
  counted = ground (arith, k.counted, length-append xs ys, length-append xs ((n, v) ∷ ys));
}
