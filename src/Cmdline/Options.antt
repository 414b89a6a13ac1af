-- ===== src/Cmdline/Options.antt =====
-- The global options of `main` in ppdb/src/ppdb/ppdb.c: which are accepted, and which one counts.
use ai_ppdb.Base.{
  ℕ, ◌≡◌, refl, ◌≢◌, Bool, true, false, ◌==◌, ◌&&◌, List, [], ◌∷◌, ◌++◌, Option, none, some, arith,
  length, All, if◌then◌else◌, map,
}
use ai_ppdb.Cmdline.{
  strncmp_eq, split_value, option_value, option_text, log_level_name, parsed, parse_globals,
}

abbrev pub is_prefix : List ℕ → List ℕ → Bool
is_prefix [] t = true
is_prefix (a ∷ s) [] = false
is_prefix (a ∷ s) (b ∷ t) = a == b && is_prefix s t

-- Not the character '='.
abbrev pub Plain : ℕ → Type 0
Plain c = c ≢ 61

split_value-append :
    (name value : List ℕ)
    → All Plain name
    → split_value (name ++ 61 ∷ value) ≡ some (length name, value)
unfolding split_value
split_value-append [] value h = refl
split_value-append (c ∷ name) value h = ground (arith, h.0, split_value-append name value h.1)

strncmp_eq-prefix :
    (name rest t : List ℕ) → strncmp_eq (name ++ rest) t (length name) ≡ is_prefix name t
unfolding strncmp_eq
strncmp_eq-prefix [] rest t = refl
strncmp_eq-prefix (a ∷ name) rest [] = refl
strncmp_eq-prefix (a ∷ name) rest (b ∷ t) = ground (arith, strncmp_eq-prefix name rest t)

-- A global option with a nonempty value and a name without = is accepted exactly if its name is
-- a prefix of log-level, the empty name included.
pub option_value-prefix :
    (name : List ℕ) (c : ℕ) (value : List ℕ)
    → All Plain name
    → option_value (name ++ 61 ∷ c ∷ value)
      ≡ (if is_prefix name log_level_name then some (c ∷ value) else none)
unfolding option_value
option_value-prefix name c value h = ground (
  arith,
  split_value-append name (c ∷ value) h,
  strncmp_eq-prefix name (61 ∷ c ∷ value) log_level_name,
)

-- The argument that sets the level to a nonempty text.
abbrev pub level_argument : ℕ × List ℕ → List ℕ
level_argument (c, value) = 45 ∷ 45 ∷ (log_level_name ++ 61 ∷ c ∷ value)

abbrev pub last_level : Option (List ℕ) → List (ℕ × List ℕ) → Option (List ℕ)
last_level level [] = level
last_level level ((c, value) ∷ more) = last_level (some (c ∷ value)) more

level_text :
    (c : ℕ) (value : List ℕ)
    → option_text (level_argument (c, value)) ≡ some (log_level_name ++ 61 ∷ c ∷ value)
unfolding option_text
level_text c value = refl

log_level_name-Plain : All Plain log_level_name
log_level_name-Plain = (
  omega arith,
  (
    omega arith,
    (
      omega arith,
      (omega arith, (omega arith, (omega arith, (omega arith, (omega arith, (omega arith, tt)))))),
    ),
  ),
)

-- After any number of --log-level options with nonempty values a command ends the options: the
-- last level counts, and the command keeps all its arguments.
pub parse_globals-levels :
    (levels : List (ℕ × List ℕ)) (level : Option (List ℕ)) (cmd : List ℕ) (args : List (List ℕ))
    → option_text cmd ≡ none
    → parse_globals level (map level_argument levels ++ cmd ∷ args)
      ≡ parsed (last_level level levels) (cmd ∷ args)
unfolding parse_globals
parse_globals-levels [] level cmd args h = ground (arith, h)
parse_globals-levels ((c, value) ∷ levels) level cmd args h =
    let text : option_text (level_argument (c, value)) ≡ some (log_level_name ++ 61 ∷ c ∷ value) =
      level_text c value in
    let accepted = option_value-prefix log_level_name c value log_level_name-Plain in
    ground (arith, text, accepted, parse_globals-levels levels (some (c ∷ value)) cmd args h)
