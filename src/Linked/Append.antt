-- ===== src/Linked/Append.antt =====
-- `infra_list_append` of infra/infra_ds.c.
use ai_ppdb.Base.{
  ℕ, ◌+◌, ◌<◌, ◌≡◌, refl, sym, ◌≢◌, List, [], ◌∷◌, ◌++◌, Option, none, some, arith, length,
  length-append, subst,
}
use ai_ppdb.Base.Words.{word}
use ai_ppdb.Linked.{Store, LinkedList, store_cell, set_next, link_last}
use ai_ppdb.Linked.Chain.{
  Entry, Chain, Absent, Distinct, Holds, last_address, Chain-last, last_address-ne, Distinct-append,
}

-- The store after a node at `n` was put behind that at `z`.
abbrev linked_store : Store → ℕ → ℕ → Option ℕ → Store
linked_store h z n v =
    set_next (some z) (some n) (store_cell n (record { next = none; prev = some z; value = v }) h)

linked-Chain :
    (h : Store) (before from : Option ℕ) (a : ℕ) (u : Option ℕ) (xs : List Entry) (last : Option ℕ)
    (n : ℕ) (v : Option ℕ)
    → n ≢ a
    → Absent n xs
    → Absent a xs
    → Distinct xs
    → Chain h before from ((a, u) ∷ xs) last
    → Chain
        (linked_store h (last_address a xs) n v)
        before
        from
        ((a, u) ∷ (xs ++ (n, v) ∷ []))
        (some n)
linked-Chain h before from a u [] last n v new out once d k =
    let h' = linked_store h a n v in
    let at_a : h' a ≡ (let c = h a in record c { next = some n }) = ground (arith, new) in
    let at_n : h' n ≡ record { next = none; prev = some a; value = v } = ground (arith, new) in
    rw (at_a, at_n) (k.0, k.1, k.2, (refl, refl, refl, (refl, refl)))
linked-Chain h before from a u ((b, w) ∷ xs) last n v new out once d k =
    let z = last_address b xs in
    let h' = linked_store h z n v in
    let at_a : h' a ≡ h a = ground (arith, new, last_address-ne a b xs once.0 once.1) in
    let rest = linked-Chain h (some a) (h a).next b w xs last n v out.0 out.1 d.0 d.1 k.3 in
    rw at_a (k.0, k.1, k.2, rest)

-- Appending a node that is not in the list to a list that holds a sequence, whose length stays
-- below 2^64, leaves a list that holds the sequence with the address and the value of the node
-- at its end, linked in both directions.
pub link_last-Holds :
    (l : LinkedList) (h : Store) (xs : List Entry) (n : ℕ) (v : Option ℕ)
    → Holds l h xs
    → Absent n xs
    → length xs + 1 < word
    → Holds (link_last n v l h).0 (link_last n v l h).1 (xs ++ (n, v) ∷ [])
unfolding link_last
link_last-Holds l h [] n v k out small =
    let linked = k.linked in
    let empty : l.head ≡ none = linked.0 in
    let end : l.tail ≡ none = linked.1 in
    record {
      linked = rw (empty, end) (refl, ground arith, ground arith, (ground arith, refl));
      distinct = (tt, tt);
      counted = ground (arith, k.counted);
    }
link_last-Holds l h ((a, u) ∷ xs) n v k out small =
    let linked = k.linked in
    let end : l.tail ≡ some (last_address a xs) = Chain-last h none l.head a u xs l.tail linked in
    let chain =
      linked-Chain h none l.head a u xs l.tail n v out.0 out.1 k.distinct.0 k.distinct.1 linked in
    let behind =
      subst
        (λ t.
          Chain (set_next t (some n) (store_cell n (record { next = none; prev = t; value = v }) h))
            none l.head ((a, u) ∷ (xs ++ (n, v) ∷ [])) (some n))
        (sym end) chain in
    record {
      linked = (ground (arith, linked.0), behind.1, behind.2, behind.3);
      distinct = Distinct-append n v ((a, u) ∷ xs) k.distinct out;
      counted = ground (arith, k.counted, length-append ((a, u) ∷ xs) ((n, v) ∷ []));
    }
