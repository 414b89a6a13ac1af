-- ===== src/System.antt =====
-- The allocator and the kernel's descriptors as the other components use them: `infra_malloc` and
-- `infra_free` of infra/infra_memory.h, and the epoll descriptors of infra/infra_platform.h. The
-- record `IsSystem` says what the components rely on.
use ai_ppdb.Base.{ℕ, ◌≡◌, Bool, true, false, Option, none, some, ◌==◌, if◌then◌else◌}

pub record System : Type 1 where
  pub State : Type 0
  pub malloc : ℕ → State → Option ℕ × State
  pub free : ℕ → State → State
  pub realloc : Option ℕ → ℕ → State → Option ℕ × State
  pub epoll_create : State → Option ℕ × State
  pub close : ℕ → State → State
  -- Whether a block is allocated, and whether a descriptor is open.
  pub live : State → ℕ → Bool
  pub opened : State → ℕ → Bool

abbrev pub insert : ℕ → (ℕ → Bool) → ℕ → Bool
insert p f q = if q == p then true else f q

abbrev pub delete : ℕ → (ℕ → Bool) → ℕ → Bool
delete p f q = if q == p then false else f q

-- An allocation gives a block that was not allocated, or NULL and changes nothing; so for
-- descriptors. Releasing one leaves the others alone.
pub record IsSystem (y : System) : Type 0 where
  pub malloc-fresh : (n : ℕ) (s : y.State) (p : ℕ) → (y.malloc n s).0 ≡ some p → y.live s p ≡ false
  pub malloc-live :
      (n : ℕ) (s : y.State) (p q : ℕ)
      → (y.malloc n s).0 ≡ some p
      → y.live (y.malloc n s).1 q ≡ insert p (y.live s) q
  pub malloc-fail :
      (n : ℕ) (s : y.State) (q : ℕ)
      → (y.malloc n s).0 ≡ none
      → y.live (y.malloc n s).1 q ≡ y.live s q
  pub malloc-opened : (n : ℕ) (s : y.State) (q : ℕ) → y.opened (y.malloc n s).1 q ≡ y.opened s q
  pub free-live : (p : ℕ) (s : y.State) (q : ℕ) → y.live (y.free p s) q ≡ delete p (y.live s) q
  pub free-opened : (p : ℕ) (s : y.State) (q : ℕ) → y.opened (y.free p s) q ≡ y.opened s q
  pub epoll-fresh : (s : y.State) (d : ℕ) → (y.epoll_create s).0 ≡ some d → y.opened s d ≡ false
  pub epoll-opened :
      (s : y.State) (d q : ℕ)
      → (y.epoll_create s).0 ≡ some d
      → y.opened (y.epoll_create s).1 q ≡ insert d (y.opened s) q
  pub epoll-fail :
      (s : y.State) (q : ℕ)
      → (y.epoll_create s).0 ≡ none
      → y.opened (y.epoll_create s).1 q ≡ y.opened s q
  pub epoll-live : (s : y.State) (q : ℕ) → y.live (y.epoll_create s).1 q ≡ y.live s q
  pub close-live : (d : ℕ) (s : y.State) (q : ℕ) → y.live (y.close d s) q ≡ y.live s q
  pub close-opened :
      (d : ℕ) (s : y.State) (q : ℕ) → y.opened (y.close d s) q ≡ delete d (y.opened s) q
