-- ===== src/Log/Tests.antt =====
-- The theorems on names at concrete inputs.
use lcdpico_34401a.Common.{ℕ, ◌≡◌, refl, List, [], ◌∷◌}
use lcdpico_34401a.Common.Int.{pos}
use lcdpico_34401a.Log.{name_of, str2log_priority, str2log_facility, names_lem}

abbrev cron_word : List ℕ
cron_word = b'C' ∷ b'R' ∷ b'O' ∷ b'N' ∷ []

abbrev crit_word : List ℕ
crit_word = b'C' ∷ b'R' ∷ b'I' ∷ b'T' ∷ []

names_lem_example : (str2log_priority crit_word ≡ pos 2) × (str2log_facility cron_word ≡ pos 9)
unfolding name_of
names_lem_example = names_lem 2 9 crit_word cron_word refl refl
