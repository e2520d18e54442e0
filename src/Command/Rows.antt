-- ===== src/Command/Rows.antt =====
-- How the tables of src/command.c are written: a row for an entry, and a table of rows.
use Prim.Native.String.{String}
use lcdpico_34401a.Common.{ℕ, List, [], ◌∷◌, Option, codes}
use lcdpico_34401a.Command.Tree.{Handler, Level, sentinel, entry, Subcommands}

-- `struct cmd_t`.
pub record Row (S : Type 0) : Type 0 where
  pub cmd : List ℕ
  pub min_match : ℕ
  pub subcmds : Subcommands S
  pub func : Option (Handler S)

abbrev pub row : {S : Type 0} → String → ℕ → Subcommands S → Option (Handler S) → Row S
row cmd min_match subcmds func = record {
  cmd = codes cmd;
  min_match = min_match;
  subcmds = subcmds;
  func = func;
}

abbrev pub table : {S : Type 0} → List (Row S) → Level S
table [] = sentinel
table (r ∷ rows) = entry r.cmd r.min_match r.subcmds r.func (table rows)
