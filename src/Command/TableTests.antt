-- ===== src/Command/TableTests.antt =====
-- The command tables at concrete inputs.
use lcdpico_34401a.Common.{ℕ, ◌≡◌, refl, List, [], ◌∷◌, ◌++◌, replicate, codes, join, some}
use lcdpico_34401a.Common.Int.{pos}
use lcdpico_34401a.Command.Tree.{Handler, error_num}
use lcdpico_34401a.Command.Interpreter.{Run, run_cmd}
use lcdpico_34401a.Command.Paths.{push_path}
use lcdpico_34401a.Command.Spelling.{is_spelling}
use lcdpico_34401a.Command.Reach.{here, there, stop, descend, are_spellings}
use lcdpico_34401a.Command.Reach.Tables.{run_cmd-commands}
use lcdpico_34401a.Command.Handlers.{Name, cmd_vsensor_name}
use lcdpico_34401a.Command.Tables.{commands, config_commands, vsensor_c_commands}

-- Notes the arguments of cmd_vsensor_name.
abbrev note_name : Name → Handler (List ℕ)
note_name cmd_vsensor_name arg args query st s = (pos 0, args)
note_name n arg args query st s = (pos 1, s)

abbrev table_start : Run (List ℕ)
table_start = record {
  cmd_level = commands note_name;
  cmd_stack = record { depth = 0; cmds = replicate 16 [] };
  res = pos 0;
  state = [];
}

abbrev sensor_words : List (List ℕ)
sensor_words = codes "vsensor2" ∷ codes "Name" ∷ []

-- "conf:vsensor2:Name room"
run_cmd-commands_example :
    run_cmd []
      (join b':' (codes "conf") sensor_words ++ (32 ∷ codes "room"))
      (commands note_name)
      table_start
    ≡ record {
      cmd_level = vsensor_c_commands note_name;
      cmd_stack = push_path (codes "conf") sensor_words table_start.cmd_stack;
      res = pos 0;
      state = codes "room";
    }
unfolding commands config_commands vsensor_c_commands are_spellings is_spelling error_num
run_cmd-commands_example =
    run_cmd-commands note_name [] b'c' (codes "onf") sensor_words (some (codes "room")) table_start
      refl
      (descend (there (there (there (there (there (there (there (there (there (there here))))))))))
        (descend (there (there (there (there (there here))))) (stop here)))
      refl (refl, (refl, (refl, (refl, tt))))
