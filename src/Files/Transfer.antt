-- ===== src/Files/Transfer.antt =====
-- What the loop over read in infra/infra_core.c transfers.
use ai_ppdb.Base.{
  ℕ, zero, suc, ◌+◌, ◌-◌, ◌≤◌, ◌<◌, ◌≡◌, refl, sym, ◌∙◌, ap, subst, true, false, List, [], ◌∷◌,
  ◌++◌, Option, none, some, ltb, ◌==◌, ◌||◌, ◌≢◌, if_split, arith, length, length-append, take,
  drop,
}
use ai_ppdb.Error.{InfraError, ok, io}
use mathlib.Core.List.{append_assoc, append-nil}
use ai_ppdb.Files.{
  Kernel, Answer, interrupted, failed, moved, Loop, spent, broken, done, read_answer, read_loop,
  finished, infra_file_read,
}
use ai_ppdb.Files.Pieces.{take-exact, drop-exact, take-all, drop-all}

-- What an answer of `read` for `n` bytes says: the bytes stood next in the file, at most `n`, and none
-- only at the end; a signal comes only so often, and leaves the file alone.
abbrev pub ReadLaw : {S : Type 0} → (S → List ℕ) → (S → ℕ) → ℕ → S → Answer (List ℕ) × S → Type 0
ReadLaw ahead patience n s (interrupted, t) = (ahead t ≡ ahead s) × (patience t < patience s)
ReadLaw ahead patience n s (failed, t) = Unit
ReadLaw ahead patience n s (moved [], t) = (ahead s ≡ []) × (ahead t ≡ [])
ReadLaw ahead patience n s (moved (b ∷ bs), t) =
    (ahead s ≡ (b ∷ bs) ++ ahead t) × (length (b ∷ bs) ≤ n) × (patience t ≤ patience s)

-- A file that is read: what stands ahead of its position, and how often signals may still come.
pub record IsSource (k : Kernel) (fd : ℕ) : Type 0 where
  pub ahead : k.State → List ℕ
  pub patience : k.State → ℕ
  pub law : (n : ℕ) (s : k.State) → 0 < n → ReadLaw ahead patience n s (k.read fd n s)

-- The loop has ended: with an error, or with the bytes that stood first, the others still ahead.
abbrev pub Delivers : {S : Type 0} → (S → List ℕ) → List ℕ → ℕ → Loop (List ℕ) S → Type 0
Delivers ahead bytes size spent = ⊥
Delivers ahead bytes size (broken s) = Unit
Delivers ahead bytes size (done got s) = (got ≡ take size bytes) × (ahead s ≡ drop size bytes)

-- The call has ended: with ok, the bytes that stood first, and the others ahead; or with an error.
abbrev pub Reads :
    {S : Type 0} → (S → List ℕ) → List ℕ → ℕ → Option (InfraError × Option (List ℕ) × S) → Type 0
Reads ahead bytes size none = ⊥
Reads ahead bytes size (some (err, none, s)) = err ≡ io
Reads ahead bytes size (some (err, some got, s)) =
    (err ≡ ok) × (got ≡ take size bytes) × (ahead s ≡ drop size bytes)

module _ (k : Kernel) (fd : ℕ) (source : IsSource k fd) where
  open k use {State, read}
  open source use {ahead, patience, law}

  read_answer-Delivers :
      (rounds size : ℕ) (go : List ℕ → State → Loop (List ℕ) State)
      → ((l : List ℕ) (t : State)
          → length l ≤ size
          → (size - length l) + patience t < rounds
          → Delivers ahead (l ++ ahead t) size (go l t))
      → (got : List ℕ) (s : State) (r : Answer (List ℕ) × State) → length got < size
      → (size - length got) + patience s < suc rounds
      → ReadLaw ahead patience (size - length got) s r
      → Delivers ahead (got ++ ahead s) size (read_answer go got r)
  unfolding read_answer
  read_answer-Delivers rounds size go ih got s (interrupted, t) h f w =
      subst (λ l. Delivers ahead (got ++ l) size (go got t)) w.0
        (ih got t (omega arith) (omega (arith, w.1)))
  read_answer-Delivers rounds size go ih got s (failed, t) h f w = tt
  read_answer-Delivers rounds size go ih got s (moved [], t) h f w =
      rw (w.0, append-nil got)
        (sym (take-all got size (omega arith)), w.1 ∙ sym (drop-all got size (omega arith)))
  read_answer-Delivers rounds size go ih got s (moved (b ∷ bs), t) h f w =
      let l = length-append got (b ∷ bs) in
      let rest = ih (got ++ b ∷ bs) t (omega (arith, l, w.1)) (omega (arith, l, w.1, w.2)) in
      subst (λ m. Delivers ahead m size (go (got ++ b ∷ bs) t))
        (append_assoc got (b ∷ bs) (ahead t) ∙ ap (λ m. got ++ m) (sym w.0)) rest

  read_loop-Delivers :
      (rounds size : ℕ) (got : List ℕ) (s : State)
      → length got ≤ size
      → (size - length got) + patience s < rounds
      → Delivers ahead (got ++ ahead s) size (read_loop k rounds fd size got s)
  unfolding read_loop
  read_loop-Delivers zero size got s h f = absurd (omega arith)
  read_loop-Delivers (suc rounds) size got s h f =
      if_split (Delivers ahead (got ++ ahead s) size) (ltb (length got) size) _ _
        (λ more.
          read_answer-Delivers rounds size (read_loop k rounds fd size)
            (read_loop-Delivers rounds size) got s (read fd (size - length got) s) (ground arith) f
            (law (size - length got) s (ground arith)))
        (λ full.
          let e : length got ≡ size = ground arith in
          (sym (take-exact got (ahead s) size e), sym (drop-exact got (ahead s) size e)))

  Delivers-Reads :
      (bytes : List ℕ) (size : ℕ) (r : Loop (List ℕ) State)
      → Delivers ahead bytes size r
      → Reads ahead bytes size (finished k r)
  Delivers-Reads bytes size spent h = h
  Delivers-Reads bytes size (broken s) h = refl
  Delivers-Reads bytes size (done got s) h = (refl, h.0, h.1)

  -- On a descriptor other than 0 that behaves like a file, with more rounds than the size and
  -- the signals that may come: infra_file_read ends, with an I/O error or with ok, the bytes
  -- that stood first up to the size, and the others still ahead, however short the reads are.
  pub infra_file_read-Reads :
      (rounds size : ℕ) (s : State)
      → fd ≢ 0
      → size + patience s < rounds
      → Reads ahead (ahead s) size (infra_file_read k rounds fd true size s)
  unfolding infra_file_read
  infra_file_read-Reads rounds size s h f =
      if_split (Reads ahead (ahead s) size) (fd == 0 || false) _ _
        (λ zero_fd. absurd (ground arith))
        (λ valid.
          Delivers-Reads (ahead s) size (read_loop k rounds fd size [] s)
            (read_loop-Delivers rounds size [] s (omega arith) (omega arith)))
