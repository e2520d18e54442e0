-- ===== src/Command/Tests.antt =====
-- The theorems on commands at concrete inputs.
use lcdpico_34401a.Common.{
  ℕ, ◌+◌, ◌≡◌, refl, arith, List, [], ◌∷◌, ◌++◌, replicate, none, some, codes, tokens, strncase_eq,
  if◌then◌else◌,
}
use lcdpico_34401a.Common.Int.{pos, negsuc}
use lcdpico_34401a.Command.Tree.{
  PrevCmd, Handler, Level, sentinel, entry, null, level, find, get_prev_cmd,
}
use lcdpico_34401a.Command.Interpreter.{Run, first_token, run_cmd, process_command}
use lcdpico_34401a.Command.Paths.{push_path}
use lcdpico_34401a.Command.Stack.{IsKept, process_command-IsKept, get_prev_cmd-path}
use lcdpico_34401a.Command.Errors.{unknown, deeper, run_cmd-Strays}

-- Counts the calls that are no queries.
abbrev count_sets : Handler ℕ
count_sets s arg query st n = (pos 0, if query then n else n + 1)

abbrev main_word : List ℕ
main_word = b'M' ∷ b'a' ∷ b'i' ∷ b'n' ∷ []

abbrev measure_word : List ℕ
measure_word = b'M' ∷ b'E' ∷ b'A' ∷ b'S' ∷ []

abbrev measure : Level ℕ
measure = entry main_word 1 null (some count_sets) sentinel

abbrev root : Level ℕ
root = entry measure_word 4 (level measure) none sentinel

abbrev start : Run ℕ
start = record {
  cmd_level = root;
  cmd_stack = record { depth = 0; cmds = replicate 16 [] };
  res = pos 0;
  state = 5;
}

-- "meas:main 7"
abbrev lower_word : List ℕ
lower_word = b'e' ∷ b'a' ∷ b's' ∷ []

abbrev lower_main : List ℕ
lower_main = b'm' ∷ []

abbrev pushed : PrevCmd
pushed = push_path (b'm' ∷ lower_word) (lower_main ∷ []) start.cmd_stack

-- A stack whose memory goes on behind the 16 entries.
abbrev in_memory : Run ℕ
in_memory = record start {
  cmd_stack = record { depth = 0; cmds = replicate 16 [] ++ (codes "next" ∷ []) };
}

process_command-IsKept_example :
    IsKept in_memory.cmd_stack (process_command [] (codes "meas:m;x") root in_memory).cmd_stack
process_command-IsKept_example =
    process_command-IsKept [] (codes "meas:m;x") root in_memory (omega arith)

-- "CONF:FAN2:HYST": depth 1 is "CONF" in short.
get_prev_cmd-path_example :
    get_prev_cmd (push_path (b'C' ∷ []) ((b'F' ∷ b'2' ∷ []) ∷ (b'H' ∷ []) ∷ []) start.cmd_stack) 1
    ≡ b'C' ∷ []
get_prev_cmd-path_example =
    get_prev_cmd-path (b'C' ∷ []) ((b'F' ∷ b'2' ∷ []) ∷ (b'H' ∷ []) ∷ []) start.cmd_stack 1 refl
      refl (omega arith)

-- From the root, whatever table is set: "measure" there has no entry "x".
run_cmd-Strays_example :
    let lost : Run ℕ = record start { cmd_level = measure } in
    ((run_cmd [] (codes ":meas::x 7") root lost).state ≡ 5)
    × ((run_cmd [] (codes ":meas::x 7") root lost).res ≡ negsuc 112)
unfolding find strncase_eq first_token tokens
run_cmd-Strays_example =
    run_cmd-Strays [] (codes ":meas::x 7") (codes "meas") (codes "x" ∷ []) root
      (record start { cmd_level = measure }) refl
      (deeper (record { subcmds = level measure; func = none }) refl refl (unknown refl))
