-- ===== src/Linked/Destroy.antt =====
-- `infra_list_destroy` of infra/infra_ds.c.
use ai_ppdb.Base.{
  ℕ, zero, suc, ◌≤◌, ◌≡◌, refl, Bool, false, ◌==◌, ◌||◌, List, [], ◌∷◌, Option, none, some, arith,
  length, if◌then◌else◌,
}
use ai_ppdb.System.{System, IsSystem}
use ai_ppdb.Linked.{Store, LinkedList, free_nodes, infra_list_destroy}
use ai_ppdb.Linked.Chain.{Entry, Chain, Holds}

-- Whether a block is a node of the sequence.
abbrev pub is_node : List Entry → ℕ → Bool
is_node [] q = false
is_node ((a, v) ∷ xs) q = q == a || is_node xs q

module _ (y : System) (law : IsSystem y) where
  open y use {State, free, live}

  free_nodes-Chain :
      (n : ℕ) (h : Store) (before from : Option ℕ) (xs : List Entry) (last : Option ℕ) (s : State)
      → Chain h before from xs last
      → length xs ≤ n
      → (s' : State) × (free_nodes y n h from s ≡ some s')
        × ((q : ℕ) → live s' q ≡ (if is_node xs q then false else live s q))
  unfolding free_nodes
  free_nodes-Chain zero h before from [] last s k few = (s, rw (k.0) refl, λ q. refl)
  free_nodes-Chain (suc n) h before from [] last s k few = (s, rw (k.0) refl, λ q. refl)
  free_nodes-Chain zero h before from ((a, v) ∷ xs) last s k few = absurd (omega arith)
  free_nodes-Chain (suc n) h before from ((a, v) ∷ xs) last s k few =
      let (s', runs, freed) =
        free_nodes-Chain n h (some a) (h a).next xs last (free a s) k.3 (omega arith) in
      (s', rw (k.0) runs, λ q. ground (arith, freed q, law.free-live a s q))

  -- Destroying a list that holds a sequence ends within as many rounds as the sequence has
  -- nodes, or more, and releases exactly the blocks of the nodes and of the list: no other
  -- block changes.
  pub infra_list_destroy-live :
      (n : ℕ) (l : LinkedList) (h : Store) (xs : List Entry) (s : State)
      → Holds l h xs
      → length xs ≤ n
      → (s' : State) × (infra_list_destroy y n (some l) h s ≡ some s')
        × ((q : ℕ) → live s' q ≡ (if q == l.addr || is_node xs q then false else live s q))
  unfolding infra_list_destroy
  infra_list_destroy-live n l h xs s k few =
      let (s', runs, freed) = free_nodes-Chain n h none l.head xs l.tail s k.linked few in
      (
        free l.addr s',
        rw (runs, infra_list_destroy) refl,
        λ q. ground (arith, freed q, law.free-live l.addr s' q),
      )
