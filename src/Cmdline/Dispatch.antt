-- ===== src/Cmdline/Dispatch.antt =====
-- The command table of poly/poly_cmdline.c: what was registered is what is executed.
use ai_ppdb.Base.{
  ℕ, suc, ◌≤◌, ◌≡◌, refl, Bool-cases, inl, inr, false, List, [], ◌∷◌, ◌++◌, Option, none, some,
  Option-cases, arith, length, length-append, bytes_eq, bytes_eq_iff, leb, if◌then◌else◌,
}
use ai_ppdb.Error.{ok}
use ai_ppdb.Cmdline.{Command, find_command, poly_cmdline_register, poly_cmdline_execute}

module _ (S : Type 0) where
  find_command-append :
      (name : List ℕ) (cs : List (Command S)) (c : Command S)
      → find_command S name (cs ++ c ∷ []) ≡ elim (find_command S name cs) [
        | some d ↦ some d
        | none ↦ if bytes_eq c.name name then some c else none
      ]
  unfolding find_command
  find_command-append name [] c = refl
  find_command-append name (d ∷ cs) c = ground (arith, find_command-append name cs c)

  register-ok :
      (cmd : Command S) (commands : List (Command S))
      → (poly_cmdline_register S (some cmd) commands).0 ≡ ok
      → (find_command S cmd.name commands ≡ none)
        × ((poly_cmdline_register S (some cmd) commands).1 ≡ commands ++ cmd ∷ [])
        × (suc (length commands) ≤ 32)
  unfolding poly_cmdline_register
  register-ok cmd commands fine = (ground arith, ground arith, ground arith)

  -- After a registration that returns ok, executing arguments whose first one, argv[0], is the
  -- name of the command runs its handler, and executing arguments with any other first one does
  -- what it did before.
  pub execute-register :
      (cmd : Command S) (commands : List (Command S)) (name : List ℕ) (args : List (List ℕ)) (s : S)
      → (poly_cmdline_register S (some cmd) commands).0 ≡ ok
      → poly_cmdline_execute S
          (some (name ∷ args))
          (poly_cmdline_register S (some cmd) commands).1
          s
        ≡ (if bytes_eq cmd.name name
            then cmd.handler (name ∷ args) s
            else poly_cmdline_execute S (some (name ∷ args)) commands s)
  unfolding poly_cmdline_execute
  execute-register cmd commands name args s fine =
      let (absent, added, room) = register-ok cmd commands fine in
      rw added
        (ground (arith, absent, find_command-append name commands cmd, bytes_eq_iff cmd.name name))

  -- No two commands have one name.
  abbrev pub UniqueNames : List (Command S) → Type 0
  UniqueNames [] = Unit {0}
  UniqueNames (c ∷ cs) = (find_command S c.name cs ≡ none) × UniqueNames cs

  append-UniqueNames :
      (cs : List (Command S)) (c : Command S)
      → UniqueNames cs
      → find_command S c.name cs ≡ none
      → UniqueNames (cs ++ c ∷ [])
  unfolding find_command
  append-UniqueNames [] c u absent = (refl, tt)
  append-UniqueNames (d ∷ cs) c u absent =
      let other : bytes_eq d.name c.name ≡ false = ground arith in
      let rest : find_command S c.name cs ≡ none = ground arith in
      (
        ground (
          arith,
          find_command-append d.name cs c,
          u.0,
          other,
          bytes_eq_iff d.name c.name,
          bytes_eq_iff c.name d.name,
        ),
        append-UniqueNames cs c u.1 rest,
      )

  -- Whatever is registered in a table of at most 32 commands with different names, and whatever
  -- the result, the table stays one of at most 32 commands with different names.
  pub register-UniqueNames :
      (cmd : Option (Command S)) (commands : List (Command S))
      → UniqueNames commands
      → length commands ≤ 32
      → UniqueNames (poly_cmdline_register S cmd commands).1
        × (length (poly_cmdline_register S cmd commands).1 ≤ 32)
  unfolding poly_cmdline_register
  register-UniqueNames none commands u few = (u, few)
  register-UniqueNames (some cmd) commands u few = elim (Bool-cases (leb 32 (length commands))) [
    | inl full ↦ rw full (u, few)
    | inr room ↦ elim (Option-cases (find_command S cmd.name commands)) [
      | inl absent ↦ rw room (
          rw absent (
            append-UniqueNames commands cmd u absent,
            ground (arith, length-append commands (cmd ∷ [])),
          ))
      | inr (c, there) ↦ rw room (rw there (u, few))
    ]
  ]
