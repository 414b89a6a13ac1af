-- ===== src/Tests/Texts.antt =====
-- The theorems on the buffer of infra/infra_core.c, on poly/poly_cmdline.c and on the options of
-- ppdb/src/ppdb/ppdb.c at concrete inputs.
use ai_ppdb.Base.{
  ℕ, ◌+◌, ◌≡◌, ◌≤◌, refl, true, List, [], ◌∷◌, none, some, arith, length, bytes_eq, if◌then◌else◌,
}
use ai_ppdb.Error.{ok}
use ai_ppdb.Tests.Machine.{machine, empty_desk}
use ai_ppdb.Buffer.{
  Buffer, reserve, grown_capacity, write, infra_buffer_write, infra_buffer_read,
  infra_buffer_readable,
}
use ai_ppdb.Buffer.Laws.{IsValid, write-read}
use ai_ppdb.Cmdline.{
  Command, find_command, poly_cmdline_register, poly_cmdline_execute, option_value, option_text,
  log_level_name,
}
use ai_ppdb.Cmdline.Dispatch.{execute-register, UniqueNames, register-UniqueNames}
use ai_ppdb.Cmdline.Options.{is_prefix, option_value-prefix}

-- Three of four bytes are written.
abbrev buffer : Buffer
buffer = record { data_addr = some 1; written = 1 ∷ 2 ∷ 3 ∷ []; size = 3; capacity = 4 }

buffer-IsValid : IsValid buffer
buffer-IsValid = record { counted = refl; inside = omega arith; fits = omega arith; present = refl }

abbrev written_buffer : Buffer
written_buffer = (write machine buffer (8 ∷ 9 ∷ []) empty_desk).1

write_ok : (infra_buffer_write machine (some buffer) (some (8 ∷ 9 ∷ [])) empty_desk).0 ≡ ok
unfolding infra_buffer_write write reserve grown_capacity
write_ok = refl

write_out :
    (infra_buffer_write machine (some buffer) (some (8 ∷ 9 ∷ [])) empty_desk).1
    ≡ some written_buffer
unfolding infra_buffer_write
write_out = refl

write-read_example :
    infra_buffer_read (some written_buffer) true (infra_buffer_readable (some written_buffer))
    ≡ (ok, 1 ∷ 2 ∷ 3 ∷ 8 ∷ 9 ∷ [])
write-read_example =
    write-read machine buffer written_buffer 8 (9 ∷ []) empty_desk buffer-IsValid (omega arith)
      write_ok write_out

-- A command whose handler counts its arguments.
abbrev count_args : List ℕ → Command ℕ
count_args name = record {
  name = name;
  desc = [];
  options = [];
  handler = λ args s. (ok, s + length args);
}

abbrev help : List ℕ
help = 104 ∷ 101 ∷ 108 ∷ 112 ∷ []

help_added : (poly_cmdline_register ℕ (some (count_args help)) []).0 ≡ ok
unfolding poly_cmdline_register find_command
help_added = refl

execute-register_example :
    poly_cmdline_execute ℕ
      (some (help ∷ []))
      (poly_cmdline_register ℕ (some (count_args help)) []).1
      0
    ≡ (if bytes_eq help help then (ok, 1) else poly_cmdline_execute ℕ (some (help ∷ [])) [] 0)
execute-register_example = execute-register ℕ (count_args help) [] help [] 0 help_added

-- A second registration of the name.
help_unique : UniqueNames ℕ (count_args help ∷ [])
unfolding find_command
help_unique = (refl, tt)

register-UniqueNames_example :
    UniqueNames ℕ (poly_cmdline_register ℕ (some (count_args help)) (count_args help ∷ [])).1
    × (length (poly_cmdline_register ℕ (some (count_args help)) (count_args help ∷ [])).1 ≤ 32)
register-UniqueNames_example =
    register-UniqueNames ℕ (some (count_args help)) (count_args help ∷ []) help_unique (omega arith)

-- "l=3"
option_value-prefix_example :
    option_value (108 ∷ 61 ∷ 51 ∷ [])
    ≡ (if is_prefix (108 ∷ []) log_level_name then some (51 ∷ []) else none)
option_value-prefix_example = option_value-prefix (108 ∷ []) 51 [] (omega arith, tt)

help_text : option_text help ≡ none
unfolding option_text
help_text = refl
