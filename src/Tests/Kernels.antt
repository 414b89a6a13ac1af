-- ===== src/Tests/Kernels.antt =====
-- A file that is read and written two bytes at a time, with signals in between.
use ai_ppdb.Base.{ℕ, zero, suc, ◌<◌, ◌≡◌, refl, true, List, [], ◌∷◌, ◌++◌, some, arith, length}
use ai_ppdb.Files.{Kernel, Answer, interrupted, moved, infra_file_read, infra_file_write}
use ai_ppdb.Files.Transfer.{IsSource, ReadLaw, Reads, infra_file_read-Reads}
use ai_ppdb.Files.Writing.{IsSink, WriteLaw, Writes, infra_file_write-Writes}

record Disk : Type 0 where
  ahead : List ℕ
  written : List ℕ
  signals : ℕ

abbrev read_some : ℕ → List ℕ → Disk → Answer (List ℕ) × Disk
read_some zero l s = (moved [], s)
read_some (suc n) [] s = (moved [], s)
read_some (suc zero) (b ∷ l) s = (moved (b ∷ []), record s { ahead = l })
read_some (suc (suc n)) (b ∷ []) s = (moved (b ∷ []), record s { ahead = [] })
read_some (suc (suc n)) (b ∷ c ∷ l) s = (moved (b ∷ c ∷ []), record s { ahead = l })

abbrev write_some : List ℕ → Disk → Answer ℕ × Disk
write_some [] s = (moved 0, s)
write_some (b ∷ []) s = (moved 1, record s { written = s.written ++ b ∷ [] })
write_some (b ∷ c ∷ l) s = (moved 2, record s { written = s.written ++ b ∷ c ∷ [] })

abbrev signalled : {A : Type 0} → ℕ → Disk → Answer A × Disk → Answer A × Disk
signalled zero s r = r
signalled (suc n) s r = (interrupted, record s { signals = n })

abbrev kernel : Kernel
kernel = record {
  State = Disk;
  read = λ fd n s. signalled s.signals s (read_some n s.ahead s);
  write = λ fd bytes s. signalled s.signals s (write_some bytes s);
  close = λ fd s. (true, s);
  seek_set = λ fd p s. (some p, s);
  seek_current = λ fd p s. (some 0, s);
  seek_end = λ fd p s. (some (length s.ahead), s);
}

abbrev disk : Disk
disk = record { ahead = 1 ∷ 2 ∷ 3 ∷ 4 ∷ 5 ∷ []; written = 9 ∷ []; signals = 2 }

abbrev ahead : Disk → List ℕ
ahead s = s.ahead

abbrev written : Disk → List ℕ
written s = s.written

abbrev signals : Disk → ℕ
signals s = s.signals

read_some-ReadLaw :
    (n : ℕ) (l : List ℕ) (s : Disk)
    → 0 < n
    → s.ahead ≡ l
    → ReadLaw ahead signals n s (read_some n l s)
read_some-ReadLaw zero l s h e = absurd (omega arith)
read_some-ReadLaw (suc n) [] s h e = (e, e)
read_some-ReadLaw (suc zero) (b ∷ l) s h e = (e, omega arith, omega arith)
read_some-ReadLaw (suc (suc n)) (b ∷ []) s h e = (e, omega arith, omega arith)
read_some-ReadLaw (suc (suc n)) (b ∷ c ∷ l) s h e = (e, omega arith, omega arith)

signalled-ReadLaw :
    (n m : ℕ) (s : Disk)
    → 0 < n
    → s.signals ≡ m
    → ReadLaw ahead signals n s (signalled m s (read_some n s.ahead s))
signalled-ReadLaw n zero s h e = read_some-ReadLaw n s.ahead s h refl
signalled-ReadLaw n (suc m) s h e = (refl, omega (arith, e))

write_some-WriteLaw :
    (l : List ℕ) (s : Disk) → 0 < length l → WriteLaw written signals l s (write_some l s)
write_some-WriteLaw [] s h = absurd (omega arith)
write_some-WriteLaw (b ∷ []) s h = (refl, omega arith, omega arith, omega arith)
write_some-WriteLaw (b ∷ c ∷ l) s h = (refl, omega arith, omega arith, omega arith)

signalled-WriteLaw :
    (l : List ℕ) (m : ℕ) (s : Disk)
    → 0 < length l
    → s.signals ≡ m
    → WriteLaw written signals l s (signalled m s (write_some l s))
signalled-WriteLaw l zero s h e = write_some-WriteLaw l s h
signalled-WriteLaw l (suc m) s h e = (refl, omega (arith, e))

abbrev source : IsSource kernel 3
source = record {
  ahead = ahead;
  patience = signals;
  law = λ n s h. signalled-ReadLaw n s.signals s h refl;
}

abbrev sink : IsSink kernel 3
sink = record {
  out = written;
  patience = signals;
  law = λ l s h. signalled-WriteLaw l s.signals s h refl;
}

infra_file_read-Reads_example :
    Reads ahead (1 ∷ 2 ∷ 3 ∷ 4 ∷ 5 ∷ []) 3 (infra_file_read kernel 9 3 true 3 disk)
infra_file_read-Reads_example =
    infra_file_read-Reads kernel 3 source 9 3 disk (λ e. ground arith) (omega arith)

infra_file_write-Writes_example :
    Writes written (9 ∷ 1 ∷ 2 ∷ 3 ∷ []) 3 (infra_file_write kernel 9 3 true (1 ∷ 2 ∷ 3 ∷ []) disk)
infra_file_write-Writes_example =
    infra_file_write-Writes kernel 3 sink 9 (1 ∷ 2 ∷ 3 ∷ []) disk (λ e. ground arith) (omega arith)
