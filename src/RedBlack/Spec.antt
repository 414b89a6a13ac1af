-- ===== src/RedBlack/Spec.antt =====
-- What the red-black tree of infra/infra_ds.c stands for: a list of entries sorted by key.
use ai_ppdb.Base.{
  ℕ, ◌<◌, ◌≡◌, refl, List, [], ◌∷◌, ◌++◌, Option, none, All, arith, ltb, ◌==◌, if◌then◌else◌,
  if_split,
}
use ai_ppdb.RedBlack.{Entry}

abbrev pub Below : ℕ → List Entry → Type 0
Below k l = All (λ (x : Entry). x.key < k) l

abbrev pub Above : ℕ → List Entry → Type 0
Above k l = All (λ (x : Entry). k < x.key) l

abbrev pub Sorted : List Entry → Type 0
Sorted [] = Unit
Sorted (x ∷ l) = Above x.key l × Sorted l

abbrev pub lookup : ℕ → List Entry → Option ℕ
lookup k [] = none
lookup k (x ∷ l) = if x.key == k then x.value else lookup k l

abbrev pub put : ℕ → Option ℕ → List Entry → List Entry
put k v [] = record { key = k; value = v } ∷ []
put k v (x ∷ l) =
    let rest = put k v l in
    if ltb k x.key
    then record { key = k; value = v } ∷ x ∷ l
    else if ltb x.key k
    then x ∷ rest
    else record x { value = v } ∷ l

abbrev pub erase : ℕ → List Entry → List Entry
erase k [] = []
erase k (x ∷ l) = let rest = erase k l in if x.key == k then l else x ∷ rest

pub Below-append : (k : ℕ) (l m : List Entry) → Below k l → Below k m → Below k (l ++ m)
Below-append k [] m h i = i
Below-append k (x ∷ l) m h i = (h.0, Below-append k l m h.1 i)

pub Above-append : (k : ℕ) (l m : List Entry) → Above k l → Above k m → Above k (l ++ m)
Above-append k [] m h i = i
Above-append k (x ∷ l) m h i = (h.0, Above-append k l m h.1 i)

pub Above-less : (j k : ℕ) (l : List Entry) → j < k → Above k l → Above j l
Above-less j k [] h i = tt
Above-less j k (x ∷ l) h i = (omega arith, Above-less j k l h i.1)

pub Below-more : (j k : ℕ) (l : List Entry) → j < k → Below j l → Below k l
Below-more j k [] h i = tt
Below-more j k (x ∷ l) h i = (omega arith, Below-more j k l h i.1)

Above-split : (k : ℕ) (l m : List Entry) → Above k (l ++ m) → Above k l × Above k m
Above-split k [] m h = (tt, h)
Above-split k (x ∷ l) m h = let i = Above-split k l m h.1 in ((h.0, i.0), i.1)

-- A sorted sequence around one of its entries.
pub Sorted-around :
    (l : List Entry) (e : Entry) (m : List Entry)
    → Sorted (l ++ e ∷ m)
    → Sorted l × (Sorted m × (Below e.key l × Above e.key m))
Sorted-around [] e m h = (tt, (h.1, (tt, h.0)))
Sorted-around (x ∷ l) e m h =
    let above = (Above-split x.key l (e ∷ m) h.0) in
    let rest = Sorted-around l e m h.1 in
    ((above.0, rest.0), (rest.1.0, ((above.1.0, rest.1.1.0), rest.1.1.1)))

pub lookup-Above : (k : ℕ) (l : List Entry) → Above k l → lookup k l ≡ none
lookup-Above k [] h = refl
lookup-Above k (x ∷ l) h = ground (arith, lookup-Above k l h.1)

pub lookup-Below : (k : ℕ) (l m : List Entry) → Below k l → lookup k (l ++ m) ≡ lookup k m
lookup-Below k [] m h = refl
lookup-Below k (x ∷ l) m h = ground (arith, lookup-Below k l m h.1)

pub lookup-left : (k : ℕ) (l m : List Entry) → Above k m → lookup k (l ++ m) ≡ lookup k l
lookup-left k [] m h = lookup-Above k m h
lookup-left k (x ∷ l) m h = rw (lookup-left k l m h) refl

-- Where the key belongs between the entries below and above it.
pub put-between :
    (k : ℕ) (v : Option ℕ) (l m : List Entry)
    → Below k l
    → Above k m
    → put k v (l ++ m) ≡ l ++ (record { key = k; value = v } ∷ m)
put-between k v [] [] h i = refl
put-between k v [] (x ∷ m) h i = ground arith
put-between k v (x ∷ l) m h i = ground (arith, put-between k v l m h.1 i)

pub put-replaces :
    (v : Option ℕ) (l : List Entry) (e : Entry) (m : List Entry)
    → Below e.key l
    → put e.key v (l ++ e ∷ m) ≡ l ++ (record e { value = v } ∷ m)
put-replaces v [] e m h = ground arith
put-replaces v (x ∷ l) e m h = ground (arith, put-replaces v l e m h.1)

pub erase-finds :
    (l : List Entry) (e : Entry) (m : List Entry)
    → Below e.key l
    → erase e.key (l ++ e ∷ m) ≡ l ++ m
erase-finds [] e m h = ground arith
erase-finds (x ∷ l) e m h = ground (arith, erase-finds l e m h.1)

pub erase-misses : (k : ℕ) (l m : List Entry) → Below k l → Above k m → erase k (l ++ m) ≡ l ++ m
erase-misses k [] [] h i = refl
erase-misses k [] (x ∷ m) h i = ground (arith, erase-misses k [] m tt i.1)
erase-misses k (x ∷ l) m h i = ground (arith, erase-misses k l m h.1 i)

pub put-Above : (j k : ℕ) (v : Option ℕ) (l : List Entry) → j < k → Above j l → Above j (put k v l)
put-Above j k v [] h i = (h, tt)
put-Above j k v (x ∷ l) h i = ground (arith, put-Above j k v l h i.1)

pub put-Sorted : (k : ℕ) (v : Option ℕ) (l : List Entry) → Sorted l → Sorted (put k v l)
put-Sorted k v [] h = (tt, tt)
put-Sorted k v (x ∷ l) h =
    if_split Sorted (ltb k x.key) _ _
      (λ less. ((ground arith, Above-less k x.key l (ground arith) h.0), h))
      (λ not_less.
        if_split Sorted (ltb x.key k) _ _
          (λ more. (put-Above x.key k v l (ground arith) h.0, put-Sorted k v l h.1)) (λ same. h))

pub erase-Above : (j k : ℕ) (l : List Entry) → Above j l → Above j (erase k l)
erase-Above j k [] i = tt
erase-Above j k (x ∷ l) i = ground (arith, erase-Above j k l i.1)

pub erase-Sorted : (k : ℕ) (l : List Entry) → Sorted l → Sorted (erase k l)
erase-Sorted k [] h = tt
erase-Sorted k (x ∷ l) h = ground (arith, erase-Sorted k l h.1, erase-Above x.key k l h.0)

pub lookup-put :
    (k : ℕ) (v : Option ℕ) (l : List Entry) (j : ℕ)
    → Sorted l
    → lookup j (put k v l) ≡ (if k == j then v else lookup j l)
lookup-put k v [] j h = refl
lookup-put k v (x ∷ l) j h = ground (arith, lookup-put k v l j h.1)

pub lookup-erase :
    (k : ℕ) (l : List Entry) (j : ℕ)
    → Sorted l
    → lookup j (erase k l) ≡ (if k == j then none else lookup j l)
lookup-erase k [] j h = ground arith
lookup-erase k (x ∷ l) j h = ground (arith, lookup-erase k l j h.1, lookup-Above k l)
