-- ===== src/Cmdline.antt =====
-- The command table of poly/poly_cmdline.c (in ppdb/src/internal) and the global options that `main`
-- of ppdb/src/ppdb/ppdb.c reads. Log lines and printed help are left out; strings end before
-- their zero byte.
pub mod Dispatch
pub mod Options
use ai_ppdb.Base.{
  ℕ, zero, suc, ◌+◌, ◌==◌, ◌&&◌, Bool, true, false, not, List, [], ◌∷◌, ◌++◌, Option, none, some,
  length, bytes_eq, leb, if◌then◌else◌,
}
use ai_ppdb.Base.Int.{ℤ, pos, negsuc}
use ai_ppdb.Error.{InfraError, ok, invalid_param, no_memory, exists, not_found, is_error}

-- `poly_cmd_option_t`
pub record CmdOption : Type 0 where
  pub name : List ℕ
  pub desc : List ℕ
  pub has_value : Bool

module _ (S : Type 0) where
  -- `poly_cmd_t`, with what its handler does to the program's state.
  pub record Command : Type 0 where
    pub name : List ℕ
    pub desc : List ℕ
    pub options : List CmdOption
    pub handler : List (List ℕ) → S → InfraError × S

  -- The loops over `commands`: the first command of a name.
  unfoldable pub find_command : List ℕ → List Command → Option Command
  find_command name [] = none
  find_command name (c ∷ cs) = if bytes_eq c.name name then some c else find_command name cs

  -- The list holds the first `command_count` of the 32 slots.
  unfoldable pub poly_cmdline_register : Option Command → List Command → InfraError × List Command
  poly_cmdline_register none commands = (invalid_param, commands)
  poly_cmdline_register (some cmd) commands =
      if leb 32 (length commands)
      then (no_memory, commands)
      else elim (find_command cmd.name commands) [
        | some c ↦ (exists, commands)
        | none ↦ (ok, commands ++ cmd ∷ [])
      ]

  unfoldable pub poly_cmdline_init : Command → InfraError × List Command
  poly_cmdline_init rinetd_cmd = poly_cmdline_register (some rinetd_cmd) []

  -- `argc < 1` is an empty list, and `argv == NULL` is `none`.
  unfoldable pub poly_cmdline_execute : Option (List (List ℕ)) → List Command → S → InfraError × S
  poly_cmdline_execute none commands s = (invalid_param, s)
  poly_cmdline_execute (some []) commands s = (invalid_param, s)
  poly_cmdline_execute (some (cmd_name ∷ args)) commands s = elim (find_command cmd_name commands) [
    | none ↦ (not_found, s)
    | some c ↦ c.handler (cmd_name ∷ args) s
  ]

  -- The result without the text that is printed.
  unfoldable pub poly_cmdline_help : Option (List ℕ) → List Command → InfraError
  poly_cmdline_help none commands = ok
  poly_cmdline_help (some cmd_name) commands = elim (find_command cmd_name commands) [
    | none ↦ not_found
    | some c ↦ ok
  ]

-- `strncmp(s, t, n) == 0`
unfoldable pub strncmp_eq : List ℕ → List ℕ → ℕ → Bool
strncmp_eq s t zero = true
strncmp_eq [] [] (suc n) = true
strncmp_eq [] (b ∷ t) (suc n) = false
strncmp_eq (a ∷ s) [] (suc n) = false
strncmp_eq (a ∷ s) (b ∷ t) (suc n) = a == b && strncmp_eq s t n

-- `strchr(option, '=')`: the length of the name before it and the text after it.
unfoldable pub split_value : List ℕ → Option (ℕ × List ℕ)
split_value [] = none
split_value (c ∷ option) =
    if c == 61
    then some (0, option)
    else elim (split_value option) [ none ↦ none | some (n, value) ↦ some (suc n, value) ]

-- "log-level"
abbrev pub log_level_name : List ℕ
log_level_name = 108 ∷ 111 ∷ 103 ∷ 45 ∷ 108 ∷ 101 ∷ 118 ∷ 101 ∷ 108 ∷ []

-- `argv[i][0] != '-' || argv[i][1] != '-'` is the result `none`; else what stands after "--".
unfoldable pub option_text : List ℕ → Option (List ℕ)
option_text [] = none
option_text (a ∷ []) = none
option_text (a ∷ b ∷ option) = if a == 45 && b == 45 then some option else none

-- How the option loop of `main` ends: with exit code 1, or with the last log level and the command.
pub data Globals : Type 0 where
  usage_error : Globals
  parsed : Option (List ℕ) → List (List ℕ) → Globals

-- One round: the value of an accepted option.
unfoldable pub option_value : List ℕ → Option (List ℕ)
option_value option = elim (split_value option) [
  | none ↦ none
  | some (name_len, []) ↦ none
  | some (name_len, c ∷ value) ↦
      if strncmp_eq option log_level_name name_len then some (c ∷ value) else none
]

unfoldable pub parse_globals : Option (List ℕ) → List (List ℕ) → Globals
parse_globals log_level_str [] = parsed log_level_str []
parse_globals log_level_str (arg ∷ args) = elim (option_text arg) [
  | none ↦ parsed log_level_str (arg ∷ args)
  | some option ↦ elim (option_value option) [
    | none ↦ usage_error
    | some value ↦ parse_globals (some value) args
  ]
]

-- The level of the configuration; `none` ends `main` with exit code 1. `strtol` gives the number
-- and the text at `endptr`, the whole text where it reads no number.
unfoldable pub log_level : (List ℕ → ℤ × List ℕ) → Option (List ℕ) → Option ℕ
log_level strtol none = some 0
log_level strtol (some text) =
    let (level, rest) = strtol text in
    let in_range : Option ℕ = elim level [
      | negsuc n ↦ none
      | pos n ↦ if leb n 5 then some n else none
    ] in
    elim rest [ [] ↦ in_range | c ∷ cs ↦ none ]
