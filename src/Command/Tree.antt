-- ===== src/Command/Tree.antt =====
-- The command tree, the stack of subcommands and the search of src/command_util.c.
use lcdpico_34401a.Common.{
  ℕ, zero, suc, ◌+◌, ◌-◌, Bool, List, [], get_or, set, ltb, leb, if◌then◌else◌, Option, none, some,
  strncase_eq,
}
use lcdpico_34401a.Common.Int.{ℤ, pos, negsuc}

abbrev pub max_cmd_depth : ℕ
max_cmd_depth = 16

-- `struct prev_cmd_t`. The entries from `depth` on are not read.
pub record PrevCmd : Type 0 where
  pub depth : ℕ
  pub cmds : List (List ℕ)

-- A handler takes the subcommand, the arguments, whether it is a query, the stack and the state of
-- the program, and gives its result and the state it leaves.
abbrev pub Handler : Type 0 → Type 0
Handler S = List ℕ → List ℕ → Bool → PrevCmd → S → ℤ × S

-- An array of `struct cmd_t` up to the entry without a name. A null pointer is `null` or `none`.
mutual
  pub data Level (S : Type 0) : Type 0 where
    sentinel : Level S
    entry : List ℕ → ℕ → Subcommands S → Option (Handler S) → Level S → Level S

  pub data Subcommands (S : Type 0) : Type 0 where
    null : Subcommands S
    level : Level S → Subcommands S

-- The entry that a search finds.
pub record Found (S : Type 0) : Type 0 where
  pub subcmds : Subcommands S
  pub func : Option (Handler S)

-- The search of `run_cmd`: the first entry that agrees in its first `min_match` bytes.
unfoldable pub find : {S : Type 0} → Level S → List ℕ → Option (Found S)
find sentinel s = none
find (entry cmd min_match subcmds func more) s =
    if strncase_eq min_match s cmd
    then some (record { subcmds = subcmds; func = func })
    else find more s

-- `cmd_stack->cmds[cmd_stack->depth++] = s`, if there is room.
unfoldable pub push : List ℕ → PrevCmd → PrevCmd
push s st =
    if ltb st.depth max_cmd_depth
    then record { depth = st.depth + 1; cmds = set st.cmds st.depth s }
    else st

-- `get_prev_cmd`, for a stack that is not null.
unfoldable pub get_prev_cmd : PrevCmd → ℕ → List ℕ
get_prev_cmd st depth = if leb st.depth depth then [] else get_or st.cmds (st.depth - depth - 1) []

-- The error number that `run_cmd` stores, from a handler's result or -1.
unfoldable pub error_num : ℤ → ℤ
error_num (negsuc n) = negsuc 112
error_num (pos zero) = pos 0
error_num (pos (suc zero)) = negsuc 99
error_num (pos (suc (suc zero))) = negsuc 101
error_num (pos (suc (suc (suc n)))) = negsuc 0
