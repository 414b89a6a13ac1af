-- ===== src/Linked/Chain.antt =====
-- What the nodes of the list of infra/infra_ds.c stand for: a sequence of addresses and values.
use ai_ppdb.Base.{ℕ, ◌≡◌, sym, ◌≢◌, List, [], ◌∷◌, ◌++◌, Option, none, some, arith, length}
use ai_ppdb.Linked.{Cell, Store, LinkedList, store_cell}

-- A node of the sequence: its address and its value.
abbrev pub Entry : Type 0
Entry = ℕ × Option ℕ

-- From the pointer `from`, with `before` in front, the nodes `xs` are linked in both directions and
-- `last` is the last of them, or `before` if there is none.
abbrev pub Chain : Store → Option ℕ → Option ℕ → List Entry → Option ℕ → Type 0
Chain h before from [] last = (from ≡ none) × (last ≡ before)
Chain h before from ((a, v) ∷ xs) last =
    (from ≡ some a)
    × ((h a).value ≡ v)
    × ((h a).prev ≡ before)
    × Chain h (some a) (h a).next xs last

abbrev pub Absent : ℕ → List Entry → Type 0
Absent n [] = Unit {0}
Absent n ((a, v) ∷ xs) = (n ≢ a) × Absent n xs

abbrev pub Distinct : List Entry → Type 0
Distinct [] = Unit {0}
Distinct ((a, v) ∷ xs) = Absent a xs × Distinct xs

-- The list's structure and the store hold exactly the sequence `xs`.
pub record Holds (l : LinkedList) (h : Store) (xs : List Entry) : Type 0 where
  pub linked : Chain h none l.head xs l.tail
  pub distinct : Distinct xs
  pub counted : l.size ≡ length xs

-- A chain looks only at its own nodes.
pub Chain-frame :
    (h : Store) (n : ℕ) (c : Cell) (before from : Option ℕ) (xs : List Entry) (last : Option ℕ)
    → Absent n xs
    → Chain h before from xs last
    → Chain (store_cell n c h) before from xs last
Chain-frame h n c before from [] last out k = k
Chain-frame h n c before from ((a, v) ∷ xs) last out k =
    let same : store_cell n c h a ≡ h a = ground (arith, out.0) in
    let tail = Chain-frame h n c (some a) (h a).next xs last out.1 k.3 in
    rw same (k.0, k.1, k.2, tail)

-- The address of the last node, from the node at `a` on.
abbrev pub last_address : ℕ → List Entry → ℕ
last_address a [] = a
last_address a ((b, v) ∷ xs) = last_address b xs

pub Chain-last :
    (h : Store) (before from : Option ℕ) (a : ℕ) (v : Option ℕ) (xs : List Entry) (last : Option ℕ)
    → Chain h before from ((a, v) ∷ xs) last
    → last ≡ some (last_address a xs)
Chain-last h before from a v [] last k = k.3.1
Chain-last h before from a v ((b, u) ∷ xs) last k = Chain-last h (some a) (h a).next b u xs last k.3

pub last_address-ne : (n a : ℕ) (xs : List Entry) → n ≢ a → Absent n xs → n ≢ last_address a xs
last_address-ne n a [] h out = h
last_address-ne n a ((b, v) ∷ xs) h out = last_address-ne n b xs out.0 out.1

pub Absent-append :
    (n b : ℕ) (v : Option ℕ) (xs : List Entry) → Absent n xs → n ≢ b → Absent n (xs ++ (b, v) ∷ [])
Absent-append n b v [] out h = (h, tt)
Absent-append n b v ((a, u) ∷ xs) out h = (out.0, Absent-append n b v xs out.1 h)

pub Distinct-append :
    (b : ℕ) (v : Option ℕ) (xs : List Entry)
    → Distinct xs
    → Absent b xs
    → Distinct (xs ++ (b, v) ∷ [])
Distinct-append b v [] d out = (tt, tt)
Distinct-append b v ((a, u) ∷ xs) d out =
    (Absent-append a b v xs d.0 (λ same. out.0 (sym same)), Distinct-append b v xs d.1 out.1)

pub Absent-left : (n : ℕ) (xs ys : List Entry) → Absent n (xs ++ ys) → Absent n xs
Absent-left n [] ys out = tt
Absent-left n ((a, v) ∷ xs) ys out = (out.0, Absent-left n xs ys out.1)

pub Absent-right : (n : ℕ) (xs ys : List Entry) → Absent n (xs ++ ys) → Absent n ys
Absent-right n [] ys out = out
Absent-right n ((a, v) ∷ xs) ys out = Absent-right n xs ys out.1

-- Leaving out one node.
pub Absent-without :
    (n b : ℕ) (v : Option ℕ) (xs ys : List Entry)
    → Absent n (xs ++ (b, v) ∷ ys)
    → Absent n (xs ++ ys)
Absent-without n b v [] ys out = out.1
Absent-without n b v ((a, u) ∷ xs) ys out = (out.0, Absent-without n b v xs ys out.1)

pub Distinct-without :
    (b : ℕ) (v : Option ℕ) (xs ys : List Entry) → Distinct (xs ++ (b, v) ∷ ys) → Distinct (xs ++ ys)
Distinct-without b v [] ys d = d.1
Distinct-without b v ((a, u) ∷ xs) ys d =
    (Absent-without a b v xs ys d.0, Distinct-without b v xs ys d.1)
