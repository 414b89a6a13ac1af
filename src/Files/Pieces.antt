-- ===== src/Files/Pieces.antt =====
-- Pieces of byte sequences, for the loops over read and write in infra/infra_core.c.
use ai_ppdb.Base.{
  ℕ, zero, suc, ◌+◌, ◌≤◌, ◌≡◌, refl, sym, ◌∙◌, ap, List, [], ◌∷◌, ◌++◌, arith, length, take, drop,
}

pub take-exact : (xs ys : List ℕ) (n : ℕ) → length xs ≡ n → take n (xs ++ ys) ≡ xs
take-exact [] ys zero h = refl
take-exact [] ys (suc n) h = absurd (omega arith)
take-exact (x ∷ xs) ys zero h = absurd (omega arith)
take-exact (x ∷ xs) ys (suc n) h = ap (λ l. x ∷ l) (take-exact xs ys n (omega arith))

pub drop-exact : (xs ys : List ℕ) (n : ℕ) → length xs ≡ n → drop n (xs ++ ys) ≡ ys
drop-exact [] ys zero h = refl
drop-exact [] ys (suc n) h = absurd (omega arith)
drop-exact (x ∷ xs) ys zero h = absurd (omega arith)
drop-exact (x ∷ xs) ys (suc n) h = drop-exact xs ys n (omega arith)

pub take-all : (xs : List ℕ) (n : ℕ) → length xs ≤ n → take n xs ≡ xs
take-all [] zero h = refl
take-all [] (suc n) h = refl
take-all (x ∷ xs) zero h = absurd (omega arith)
take-all (x ∷ xs) (suc n) h = ap (λ l. x ∷ l) (take-all xs n (omega arith))

pub drop-all : (xs : List ℕ) (n : ℕ) → length xs ≤ n → drop n xs ≡ []
drop-all [] zero h = refl
drop-all [] (suc n) h = refl
drop-all (x ∷ xs) zero h = absurd (omega arith)
drop-all (x ∷ xs) (suc n) h = drop-all xs n (omega arith)

pub take_nil : (n : ℕ) → take {A = ℕ} n [] ≡ []
take_nil zero = refl
take_nil (suc n) = refl

pub take-drop : (m n : ℕ) (xs : List ℕ) → take m xs ++ take n (drop m xs) ≡ take (m + n) xs
take-drop zero n xs = ap (λ j. take j xs) (omega arith)
take-drop (suc m) n [] = take_nil n ∙ sym (take_nil (suc m + n))
take-drop (suc m) n (x ∷ xs) =
    let e : suc m + n ≡ suc (m + n) = omega arith in rw e (ap (λ l. x ∷ l) (take-drop m n xs))
