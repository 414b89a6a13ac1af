-- ===== src/Hash/Chain.antt =====
-- One bucket of the hash table of infra/infra_ds.c: what a search finds after each change.
use ai_ppdb.Base.{
  ℕ, ◌+◌, ◌≡◌, refl, inl, inr, Bool-cases, List, [], ◌∷◌, Option, none, some, arith, length,
  bytes_eq, bytes_eq_iff, if◌then◌else◌,
}
use ai_ppdb.Hash.{Node, find_entry, assign, unlink}

-- No two entries have one key.
abbrev pub Distinct : List Node → Type 0
Distinct [] = Unit {0}
Distinct (n ∷ ns) = (find_entry n.key ns ≡ none) × Distinct ns

pub find_entry-key : (k : List ℕ) (ns : List Node) (n : Node) → find_entry k ns ≡ some n → n.key ≡ k
unfolding find_entry
find_entry-key k [] n e = cc
find_entry-key k (m ∷ ns) n e = ground (arith, find_entry-key k ns n, bytes_eq_iff m.key k)

pub find_entry-assign :
    (k j : List ℕ) (v : Option ℕ) (ns : List Node) (n : Node)
    → find_entry k ns ≡ some n
    → find_entry j (assign k v ns)
      ≡ (if bytes_eq k j then some (record n { value = v }) else find_entry j ns)
unfolding find_entry assign
find_entry-assign k j v [] n e = cc
find_entry-assign k j v (m ∷ ns) n e = ground (
  arith,
  find_entry-assign k j v ns n,
  bytes_eq_iff m.key k,
  bytes_eq_iff m.key j,
  bytes_eq_iff k j,
)

pub find_entry-unlink :
    (k j : List ℕ) (ns : List Node)
    → Distinct ns
    → find_entry j (unlink k ns) ≡ (if bytes_eq k j then none else find_entry j ns)
unfolding find_entry unlink
find_entry-unlink k j [] d = ground arith
find_entry-unlink k j (m ∷ ns) d = ground (
  arith,
  find_entry-unlink k j ns d.1,
  d.0,
  bytes_eq_iff m.key k,
  bytes_eq_iff m.key j,
  bytes_eq_iff k j,
)

pub find_entry-unlink-none :
    (k j : List ℕ) (ns : List Node) → find_entry j ns ≡ none → find_entry j (unlink k ns) ≡ none
unfolding find_entry unlink
find_entry-unlink-none k j [] e = refl
find_entry-unlink-none k j (m ∷ ns) e = ground (arith, find_entry-unlink-none k j ns)

pub find_entry-assign-none :
    (k j : List ℕ) (v : Option ℕ) (ns : List Node)
    → find_entry j ns ≡ none
    → find_entry j (assign k v ns) ≡ none
unfolding find_entry assign
find_entry-assign-none k j v [] e = refl
find_entry-assign-none k j v (m ∷ ns) e = ground (arith, find_entry-assign-none k j v ns)

pub assign-Distinct :
    (k : List ℕ) (v : Option ℕ) (ns : List Node) → Distinct ns → Distinct (assign k v ns)
unfolding assign
assign-Distinct k v [] d = tt
assign-Distinct k v (m ∷ ns) d = elim (Bool-cases (bytes_eq m.key k)) [
  | inl same ↦ rw same d
  | inr other ↦ rw other (find_entry-assign-none k m.key v ns d.0, assign-Distinct k v ns d.1)
]

pub unlink-Distinct : (k : List ℕ) (ns : List Node) → Distinct ns → Distinct (unlink k ns)
unfolding unlink
unlink-Distinct k [] d = tt
unlink-Distinct k (m ∷ ns) d = elim (Bool-cases (bytes_eq m.key k)) [
  | inl same ↦ rw same d.1
  | inr other ↦ rw other (find_entry-unlink-none k m.key ns d.0, unlink-Distinct k ns d.1)
]

pub length-assign :
    (k : List ℕ) (v : Option ℕ) (ns : List Node) → length (assign k v ns) ≡ length ns
unfolding assign
length-assign k v [] = refl
length-assign k v (m ∷ ns) = ground (arith, length-assign k v ns)

pub length-unlink :
    (k : List ℕ) (ns : List Node) (n : Node)
    → find_entry k ns ≡ some n
    → length (unlink k ns) + 1 ≡ length ns
unfolding find_entry unlink
length-unlink k [] n e = cc
length-unlink k (m ∷ ns) n e = ground (arith, length-unlink k ns n)
