-- ===== src/Files.antt =====
-- The file operations of infra/infra_core.c (in ppdb/src/internal), over the calls of the kernel.
pub mod Pieces
pub mod Transfer
pub mod Writing
use ai_ppdb.Base.{
  ℕ, zero, suc, ◌+◌, ◌-◌, Bool, true, false, not, ◌||◌, List, [], ◌∷◌, ◌++◌, Option, none, some,
  ltb, ◌==◌, if◌then◌else◌, length, take, drop,
}
use ai_ppdb.Error.{InfraError, ok, invalid, io}

-- How `read` and `write` return: interrupted by a signal, with another error, or with the bytes that
-- were read or the number of those that were written.
pub data Answer (A : Type 0) : Type 0 where
  interrupted failed : Answer A
  moved : A → Answer A

-- The kernel's calls on descriptors. `lseek` gives the new position, or -1, which is `none`.
pub record Kernel : Type 1 where
  pub State : Type 0
  pub read : ℕ → ℕ → State → Answer (List ℕ) × State
  pub write : ℕ → List ℕ → State → Answer ℕ × State
  pub close : ℕ → State → Bool × State
  pub seek_set : ℕ → ℕ → State → Option ℕ × State
  pub seek_current : ℕ → ℕ → State → Option ℕ × State
  pub seek_end : ℕ → ℕ → State → Option ℕ × State

-- What a loop comes to: out of rounds, an I/O error, or the end.
pub data Loop (A S : Type 0) : Type 0 where
  spent : Loop A S
  broken : S → Loop A S
  done : A → S → Loop A S

-- The round of `infra_file_read` after `read`, `got` being in the buffer and `go` the next round.
unfoldable pub read_answer :
    {S : Type 0} → (List ℕ → S → Loop (List ℕ) S) → List ℕ → Answer (List ℕ) × S → Loop (List ℕ) S
read_answer go got (interrupted, s) = go got s
read_answer go got (failed, s) = broken s
read_answer go got (moved [], s) = done got s
read_answer go got (moved (b ∷ bs), s) = go (got ++ b ∷ bs) s

-- The round of `infra_file_write` after `write`, `total` bytes being written before.
unfoldable pub write_answer : {S : Type 0} → (ℕ → S → Loop ℕ S) → ℕ → Answer ℕ × S → Loop ℕ S
write_answer go total (interrupted, s) = go total s
write_answer go total (failed, s) = broken s
write_answer go total (moved n, s) = go (total + n) s

module _ (k : Kernel) where
  open k use {State, read, write, close, seek_set, seek_current, seek_end}

  unfoldable pub read_loop : ℕ → ℕ → ℕ → List ℕ → State → Loop (List ℕ) State
  unfolding read_answer
  read_loop zero fd size got s = spent
  read_loop (suc rounds) fd size got s =
      if ltb (length got) size
      then read_answer (read_loop rounds fd size) got (read fd (size - length got) s)
      else done got s

  unfoldable pub write_loop : ℕ → ℕ → List ℕ → ℕ → State → Loop ℕ State
  unfolding write_answer
  write_loop zero fd bytes total s = spent
  write_loop (suc rounds) fd bytes total s =
      if ltb total (length bytes)
      then write_answer (write_loop rounds fd bytes) total (write fd (drop total bytes) s)
      else done total s

  -- The result: an error, or ok with what was transferred; `none` is out of rounds.
  abbrev pub finished : {A : Type 0} → Loop A State → Option (InfraError × Option A × State)
  finished spent = none
  finished (broken s) = some (io, none, s)
  finished (done a s) = some (ok, some a, s)

  -- `given` is whether `buffer` and the place of the result are not NULL.
  unfoldable pub infra_file_read :
      ℕ → ℕ → Bool → ℕ → State → Option (InfraError × Option (List ℕ) × State)
  unfolding read_loop
  infra_file_read rounds handle given size s =
      if handle == 0 || not given
      then some (invalid, none, s)
      else finished (read_loop rounds handle size [] s)

  unfoldable pub infra_file_write :
      ℕ → ℕ → Bool → List ℕ → State → Option (InfraError × Option ℕ × State)
  unfolding write_loop
  infra_file_write rounds handle given bytes s =
      if handle == 0 || not given
      then some (invalid, none, s)
      else finished (write_loop rounds handle bytes 0 s)

  unfoldable pub infra_file_close : ℕ → State → InfraError × State
  infra_file_close handle s =
      let (closed, s') = close handle s in
      if handle == 0 then (invalid, s) else if closed then (ok, s') else (io, s')

  -- The last step of `infra_file_size`.
  unfoldable pub seek_back : ℕ → ℕ → ℕ → State → InfraError × Option ℕ × State
  seek_back handle current end s =
      let (back, s') = seek_set handle current s in
      elim back [ none ↦ (io, none, s') | some p ↦ (ok, some end, s') ]

  unfoldable pub seek_to_end : ℕ → ℕ → State → InfraError × Option ℕ × State
  unfolding seek_back
  seek_to_end handle current s =
      let (end, s') = seek_end handle 0 s in
      elim end [ none ↦ (io, none, s') | some e ↦ seek_back handle current e s' ]

  unfoldable pub infra_file_size : ℕ → Bool → State → InfraError × Option ℕ × State
  unfolding seek_to_end
  infra_file_size handle given s =
      let (current, s') = seek_current handle 0 s in
      let rest : InfraError × Option ℕ × State = elim current [
        | none ↦ (io, none, s')
        | some c ↦ seek_to_end handle c s'
      ] in
      if handle == 0 || not given then (invalid, none, s) else rest
