-- ===== src/Command/Reach/Tables.antt =====
-- The tables of src/command.c: no entry hides another.
use lcdpico_34401a.Common.{
  Option, ℕ, ◌≡◌, refl, sym, true, List, ◌∷◌, ◌++◌, ◌==◌, if◌then◌else◌, Bool-cases, inl, inr, join,
  IsFree, strncase_eq,
}
use mathlib.Core.Path.{subst}
use lcdpico_34401a.Command.Tree.{PrevCmd, Handler, Level, error_num}
use lcdpico_34401a.Command.Interpreter.{is_nul, Run, is_query, run_cmd}
use lcdpico_34401a.Command.Paths.{last_of, push_path, tail_of, args_of, from_stack}
use lcdpico_34401a.Command.Reach.{Title, Route, are_spellings, is_clear, hides_none}
use lcdpico_34401a.Command.Reach.Routes.{run_cmd-Route}
use lcdpico_34401a.Command.Handlers.{Name}
use lcdpico_34401a.Command.Tables.{
  commands, lfs_commands, i2c_commands, system_commands, vsensor_c_commands, vsensors_c_commands,
  config_commands, vsensor_commands, measure_commands, write_commands,
}
use lcdpico_34401a.Command.Tables.Network.{
  wifi_commands, http_mask_commands, http_commands, ssh_pkey_commands, ssh_pubkey_commands,
  ssh_commands, telnet_commands, tls_commands,
}

is_clear-commands : {S : Type 0} (on : Name → Handler S) → is_clear (commands on) ≡ true
unfolding commands lfs_commands i2c_commands system_commands vsensor_c_commands vsensors_c_commands
    config_commands vsensor_commands measure_commands write_commands wifi_commands
    http_mask_commands http_commands ssh_pkey_commands ssh_pubkey_commands ssh_commands
    telnet_commands tls_commands is_clear hides_none strncase_eq
is_clear-commands on = refl

from_stack-eq :
    (c : ℕ) (st : PrevCmd)
    → record st { depth = if c == b'*' then 0 else st.depth } ≡ from_stack c st
from_stack-eq c st = elim (Bool-cases (c == b'*')) [ inl e ↦ rw e refl | inr e ↦ rw e refl ]

-- Every handler of the command tables can be called: the line `s:t:…` with nothing or with a blank
-- and arguments behind it, where the subcommands spell, one for one, the names of entries that lead
-- from the root table to a handler, calls this handler, with the last subcommand, the arguments,
-- whether it is a query, the other subcommands on the stack, and the program's state; its result
-- gives the error number, and the level is the handler's table. A spelling is the beginning of the
-- name, in any letter case, with at least as many bytes as the table says, and behind it question
-- marks and digits. The line starts from the root table and the stack as it was, or, where it
-- begins with '*', from any table and with the stack emptied. The arguments hold no NUL.
pub run_cmd-commands :
    {S : Type 0} {p : Level S} {t : Title} {ts : List Title} {h : Handler S} (on : Name → Handler S)
    (behind : List ℕ) (c : ℕ) (s : List ℕ) (ss : List (List ℕ)) (args : Option (List ℕ)) (r : Run S)
    → (if c == b'*' then commands on else r.cmd_level) ≡ commands on
    → Route (commands on) t ts h p
    → are_spellings (t ∷ ts) ((c ∷ s) ∷ ss) ≡ true
    → IsFree is_nul (args_of args)
    → let last : List ℕ = last_of (c ∷ s) ss in
      let start : PrevCmd = record (r.cmd_stack) {
        depth = if c == b'*' then 0 else r.cmd_stack.depth;
      } in
      let stack : PrevCmd = push_path (c ∷ s) ss start in
      let result = h last (args_of args) (is_query last) stack r.state in
      run_cmd behind (join b':' (c ∷ s) ss ++ tail_of args) (commands on) r
      ≡ record { cmd_level = p; cmd_stack = stack; res = error_num result.0; state = result.1 }
run_cmd-commands {p = p} {t = t} {ts = ts} {h = h} on behind c s ss args r root q e ha =
    rw (from_stack-eq c r.cmd_stack) (
      run_cmd-Route behind c s ss args (commands on) r
        (subst (λ l. is_clear l ≡ true) (sym root) (is_clear-commands on))
        (subst (λ l. Route l t ts h p) (sym root) q) e ha)
