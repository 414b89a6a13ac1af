-- ===== src/Buffer/Laws.antt =====
-- What the buffer of infra/infra_core.c keeps: its bytes in order, within its capacity.
use ai_ppdb.Base.{
  ℕ, ◌+◌, ◌≤◌, ◌<◌, ◌≡◌, refl, true, false, List, [], ◌∷◌, ◌++◌, some, subst, arith, length,
  length-append, take, if◌then◌else◌, is_null,
}
use ai_ppdb.Base.Words.{word}
use ai_ppdb.Error.{ok, is_error}
use ai_ppdb.System.{System}
use ai_ppdb.Buffer.{
  Buffer, reserve, grown_capacity, write, infra_buffer_write, infra_buffer_read,
  infra_buffer_readable,
}

pub record IsValid (b : Buffer) : Type 0 where
  pub counted : b.size ≡ length b.written
  pub inside : b.size ≤ b.capacity
  pub fits : b.capacity < word
  pub present : is_null b.data_addr ≡ false

module _ (y : System) (b : Buffer) (valid : IsValid b) where
  open y use {State}

  reserve-IsValid : (n : ℕ) (s : State) → n < word → IsValid (reserve y b n s).1
  unfolding reserve
  reserve-IsValid n s small = record {
    counted = ground (arith, valid.counted);
    inside = ground (arith, valid.inside);
    fits = ground (arith, valid.fits);
    present = ground (arith, valid.present);
  }

  -- On a valid buffer, where the sizes add up below 2^64, a write appends its bytes or, if it
  -- returns an error, leaves the bytes alone; either way the buffer stays valid: size counts
  -- the bytes and is at most the capacity.
  pub write-appends :
      (bytes : List ℕ) (s : State)
      → b.size + length bytes < word
      → IsValid (write y b bytes s).1
        × ((write y b bytes s).1.written
            ≡ (if is_error (write y b bytes s).0 then b.written else b.written ++ bytes))
  unfolding write reserve grown_capacity
  write-appends bytes s small =
      let sized = length-append b.written bytes in
      (
        record {
          counted = ground (arith, valid.counted, sized);
          inside = ground (arith, valid.inside, valid.fits);
          fits = ground (arith, valid.inside, valid.fits);
          present = ground (arith, valid.present);
        },
        ground arith,
      )

take-all : (xs : List ℕ) → take (length xs) xs ≡ xs
take-all [] = refl
take-all (x ∷ xs) = rw (take-all xs) refl

-- After a write of a nonempty sequence to a valid buffer that returns ok, with the sizes adding
-- up below 2^64, a read of all readable bytes returns the bytes before the write followed by
-- those written.
pub write-read :
    (y : System) (b b' : Buffer) (c : ℕ) (bytes : List ℕ) (s : y.State)
    → IsValid b
    → b.size + length (c ∷ bytes) < word
    → (infra_buffer_write y (some b) (some (c ∷ bytes)) s).0 ≡ ok
    → (infra_buffer_write y (some b) (some (c ∷ bytes)) s).1 ≡ some b'
    → infra_buffer_read (some b') true (infra_buffer_readable (some b'))
      ≡ (ok, b.written ++ c ∷ bytes)
unfolding infra_buffer_write infra_buffer_read infra_buffer_readable
write-read y b b' c bytes s v small fine out =
    let (after, appended) = write-appends y b v (c ∷ bytes) s small in
    let there : (write y b (c ∷ bytes) s).1 ≡ b' = ground arith in
    let written : b'.written ≡ b.written ++ c ∷ bytes = ground (arith, appended, there) in
    let sized : b'.size ≡ length b'.written =
      subst (λ (q : Buffer). q.size ≡ length q.written) there after.counted in
    let whole : take b'.size b'.written ≡ b'.written = rw sized (take-all b'.written) in
    ground (arith, whole, written, sized, length-append b.written (c ∷ bytes))
