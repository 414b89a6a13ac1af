-- ===== src/Files/Writing.antt =====
-- What the loop over write in infra/infra_core.c transfers.
use ai_ppdb.Base.{
  ℕ, zero, suc, ◌+◌, ◌-◌, ◌≤◌, ◌<◌, ◌≡◌, refl, sym, ◌∙◌, ap, true, false, List, ◌++◌, Option, none,
  some, ltb, ◌==◌, ◌||◌, ◌≢◌, if_split, arith, length, length-drop, take, drop,
}
use ai_ppdb.Error.{InfraError, ok, io}
use mathlib.Core.List.{append_assoc, append-nil}
use ai_ppdb.Files.{
  Kernel, Answer, interrupted, failed, moved, Loop, spent, broken, done, write_answer, write_loop,
  finished, infra_file_write,
}
use ai_ppdb.Files.Pieces.{take-all, take-drop}

-- What an answer of `write` says: at least one byte, and not more than were given, stands at the end
-- of what was written; a signal comes only so often.
abbrev pub WriteLaw : {S : Type 0} → (S → List ℕ) → (S → ℕ) → List ℕ → S → Answer ℕ × S → Type 0
WriteLaw out patience bytes s (interrupted, t) = (out t ≡ out s) × (patience t < patience s)
WriteLaw out patience bytes s (failed, t) = Unit
WriteLaw out patience bytes s (moved n, t) =
    (out t ≡ out s ++ take n bytes) × (0 < n) × (n ≤ length bytes) × (patience t ≤ patience s)

pub record IsSink (k : Kernel) (fd : ℕ) : Type 0 where
  pub out : k.State → List ℕ
  pub patience : k.State → ℕ
  pub law :
      (bytes : List ℕ) (s : k.State)
      → 0 < length bytes
      → WriteLaw out patience bytes s (k.write fd bytes s)

-- The loop has ended: with an error, or with all bytes at the end of what was written.
abbrev pub Stores : {S : Type 0} → (S → List ℕ) → List ℕ → ℕ → Loop ℕ S → Type 0
Stores out all size spent = ⊥
Stores out all size (broken s) = Unit
Stores out all size (done n s) = (n ≡ size) × (out s ≡ all)

-- The call has ended: with ok, all bytes written behind what there was; or with an error.
abbrev pub Writes :
    {S : Type 0} → (S → List ℕ) → List ℕ → ℕ → Option (InfraError × Option ℕ × S) → Type 0
Writes out all size none = ⊥
Writes out all size (some (err, none, s)) = err ≡ io
Writes out all size (some (err, some n, s)) = (err ≡ ok) × (n ≡ size) × (out s ≡ all)

module _ (k : Kernel) (fd : ℕ) (sink : IsSink k fd) where
  open k use {State, write}
  open sink use {out, patience, law}

  write_answer-Stores :
      (rounds : ℕ) (bytes before : List ℕ) (go : ℕ → State → Loop ℕ State)
      → ((n : ℕ) (t : State)
          → n ≤ length bytes
          → (length bytes - n) + patience t < rounds
          → out t ≡ before ++ take n bytes
          → Stores out (before ++ bytes) (length bytes) (go n t))
      → (total : ℕ) (s : State) (r : Answer ℕ × State) → total < length bytes
      → (length bytes - total) + patience s < suc rounds
      → out s ≡ before ++ take total bytes
      → WriteLaw out patience (drop total bytes) s r
      → Stores out (before ++ bytes) (length bytes) (write_answer go total r)
  unfolding write_answer
  write_answer-Stores rounds bytes before go ih total s (interrupted, t) h f o w =
      ih total t (omega arith) (omega (arith, w.1)) (w.0 ∙ o)
  write_answer-Stores rounds bytes before go ih total s (failed, t) h f o w = tt
  write_answer-Stores rounds bytes before go ih total s (moved n, t) h f o w =
      let l = length-drop total bytes in
      ih (total + n) t (omega (arith, l, w.2)) (omega (arith, l, w.1, w.2, w.3)) (
        w.0
        ∙ rw o (append_assoc before (take total bytes) (take n (drop total bytes)))
        ∙ ap (λ m. before ++ m) (take-drop total n bytes))

  write_loop-Stores :
      (rounds : ℕ) (bytes before : List ℕ) (total : ℕ) (s : State)
      → total ≤ length bytes
      → (length bytes - total) + patience s < rounds
      → out s ≡ before ++ take total bytes
      → Stores out (before ++ bytes) (length bytes) (write_loop k rounds fd bytes total s)
  unfolding write_loop
  write_loop-Stores zero bytes before total s h f o = absurd (omega arith)
  write_loop-Stores (suc rounds) bytes before total s h f o =
      if_split (Stores out (before ++ bytes) (length bytes)) (ltb total (length bytes)) _ _
        (λ more.
          write_answer-Stores rounds bytes before (write_loop k rounds fd bytes)
            (write_loop-Stores rounds bytes before) total s (write fd (drop total bytes) s)
            (ground arith) f o (law (drop total bytes) s (ground (arith, length-drop total bytes))))
        (λ full.
          let e : total ≡ length bytes = ground arith in
          (e, o ∙ ap (λ m. before ++ m) (take-all bytes total (ground arith))))

  Stores-Writes :
      (all : List ℕ) (size : ℕ) (r : Loop ℕ State)
      → Stores out all size r
      → Writes out all size (finished k r)
  Stores-Writes all size spent h = h
  Stores-Writes all size (broken s) h = refl
  Stores-Writes all size (done n s) h = (refl, h.0, h.1)

  -- On a descriptor other than 0 whose writes take at least one byte, with more rounds than
  -- there are bytes and signals that may come: infra_file_write ends, with an I/O error or with
  -- ok and all bytes behind what was written before.
  pub infra_file_write-Writes :
      (rounds : ℕ) (bytes : List ℕ) (s : State)
      → fd ≢ 0
      → length bytes + patience s < rounds
      → Writes out (out s ++ bytes) (length bytes) (infra_file_write k rounds fd true bytes s)
  unfolding infra_file_write
  infra_file_write-Writes rounds bytes s h f =
      if_split (Writes out (out s ++ bytes) (length bytes)) (fd == 0 || false) _ _
        (λ zero_fd. absurd (ground arith))
        (λ valid. Stores-Writes (out s ++ bytes) (length bytes) (write_loop k rounds fd bytes 0 s) (
          write_loop-Stores rounds bytes (out s) 0 s (omega arith) (omega arith)
            (sym (append-nil (out s)))))
