-- ===== src/Command/Interpreter.antt =====
-- `run_cmd` of src/command_util.c, and `process_command` of src/command.c, which calls it.
use lcdpico_34401a.Common.{
  ℕ, ◌+◌, ◌-◌, Bool, true, false, not, ◌||◌, ◌&&◌, List, [], ◌∷◌, ◌++◌, length, get_or, drop, ltb,
  leb, ◌==◌, if◌then◌else◌, Option, none, some, before, from, tokens,
}
use lcdpico_34401a.Common.Int.{ℤ, negsuc}
use lcdpico_34401a.Command.Tree.{
  PrevCmd, Handler, Level, Subcommands, null, level, find, push, error_num,
}

-- The separators of the calls of `strtok_r`, and `iswspace` of the C locale.
abbrev pub is_blank : ℕ → Bool
is_blank c = c == 32 || c == 9

abbrev pub is_colon : ℕ → Bool
is_colon c = c == b':'

abbrev pub is_semicolon : ℕ → Bool
is_semicolon c = c == b';'

abbrev pub is_space : ℕ → Bool
is_space c = c == 32 || leb 9 c && leb c 13

-- What `run_cmd` works on: the level, the stack, the last result and the program's state.
pub record Run (S : Type 0) : Type 0 where
  pub cmd_level : Level S
  pub cmd_stack : PrevCmd
  pub res : ℤ
  pub state : S

-- `s[strlen(s) - 1] == '?'`
unfoldable pub is_query : List ℕ → Bool
is_query s = get_or s (length s - 1) 0 == b'?'

-- A handler is called. The mutex is taken around it, unless it is a query.
unfoldable pub call : {S : Type 0} → List ℕ → List ℕ → Option (Handler S) → Run S → Run S
call arg s none r = r
call arg s (some func) r =
    let result = func s arg (is_query s) r.cmd_stack r.state in
    record r { res = result.0; state = result.1 }

-- What is done with the entry that is found, where `more` subcommands follow or none.
unfoldable pub visit :
    {S : Type 0} → List ℕ → List ℕ → Bool → Subcommands S → Option (Handler S) → Run S → Run S
unfolding call
visit arg s true (level sub) func r = record r { cmd_stack = push s r.cmd_stack; cmd_level = sub }
visit arg s true null func r = call arg s func r
visit arg s false sub func r = call arg s func r

abbrev pub is_more : List (List ℕ) → Bool
is_more [] = false
is_more (t ∷ ts) = true

-- The loop over the subcommands. It ends where no entry agrees.
unfoldable pub walk : {S : Type 0} → List ℕ → List (List ℕ) → Run S → Run S
walk arg [] r = r
walk arg (s ∷ ts) r = elim (find r.cmd_level s) [
  | none ↦ r
  | some f ↦ walk arg ts (visit arg s (is_more ts) f.subcmds f.func r)
]

-- The command is at the root if it begins with ':' or '*'.
unfoldable pub at_root : {S : Type 0} → Level S → List ℕ → Run S → Run S
at_root commands t r =
    if get_or t 0 0 == b':' || get_or t 0 0 == b'*'
    then record r { cmd_level = commands; cmd_stack = record (r.cmd_stack) { depth = 0 } }
    else r

-- The bytes of a C string, up to its terminator.
abbrev pub is_nul : ℕ → Bool
is_nul c = c == 0

-- The arguments: what stands `cmd_len + 1` bytes after the first token `t`, if the line is longer
-- than that. `behind` is what lies in memory behind the line's terminator.
unfoldable pub arguments : List ℕ → List ℕ → List ℕ → List ℕ
arguments behind cmd t =
    let start : ℕ = length cmd - length (from (λ c. not (is_blank c)) cmd) in
    if ltb (length t + 1) (length cmd)
    then before is_nul (drop (start + length t + 1) (cmd ++ (0 ∷ behind)))
    else []

unfoldable pub first_token : List ℕ → List ℕ
first_token cmd = before is_blank (from (λ c. not (is_blank c)) cmd)

-- `run_cmd` from the first token on: -1 is the result where no handler is called.
unfoldable pub run_token : {S : Type 0} → List ℕ → List ℕ → List ℕ → Level S → Run S → Run S
run_token {S = S} behind cmd t commands r =
    let start : Run S = record r { res = negsuc 0 } in
    if length t == 0
    then start
    else walk (arguments behind cmd t) (tokens is_colon t) (at_root commands t start)

-- `run_cmd`. The result's `res` is the error number.
unfoldable pub run_cmd : {S : Type 0} → List ℕ → List ℕ → Level S → Run S → Run S
run_cmd {S = S} behind cmd commands r =
    let ended : Run S = run_token behind cmd (first_token cmd) commands r in
    record ended { res = error_num ended.res }

-- `trim_str` of src/util.c: no blanks at either end.
unfoldable pub trim_end : List ℕ → List ℕ
trim_end [] = []
trim_end (c ∷ s) = let rest = trim_end s in if is_space c && length rest == 0 then [] else c ∷ rest

unfoldable pub trim_str : List ℕ → List ℕ
unfolding trim_end
trim_str s = trim_end (from (λ c. not (is_space c)) s)

-- One round of the loop of `process_command`.
unfoldable pub process_one : {S : Type 0} → List ℕ → List ℕ → Level S → Run S → Run S
unfolding trim_str
process_one {S = S} behind cmd commands r =
    let trimmed : List ℕ = trim_str cmd in
    let ready : Run S = record r { cmd_stack = record (r.cmd_stack) { depth = 0 } } in
    if ltb 0 (length trimmed) then run_cmd behind trimmed commands ready else r

unfoldable pub process_all : {S : Type 0} → List ℕ → List (List ℕ) → Level S → Run S → Run S
unfolding process_one
process_all behind [] commands r = r
process_all behind (c ∷ cs) commands r =
    process_all behind cs commands (process_one behind c commands r)

-- `process_command`: the level is carried from one command to the next. `last_error_num` is `res`.
unfoldable pub process_command : {S : Type 0} → List ℕ → List ℕ → Level S → Run S → Run S
process_command behind command commands r =
    process_all behind (tokens is_semicolon command) commands (record r { cmd_level = commands })
