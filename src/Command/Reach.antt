-- ===== src/Command/Reach.antt =====
-- Every command of a tree of tables can be reached, in each of its spellings.
pub mod Tables
pub mod Routes
use lcdpico_34401a.Common.{
  ℕ, zero, suc, ◌-◌, ◌≤◌, ◌≡◌, refl, arith, Bool, true, false, not, ◌&&◌, ◌||◌, List, [], ◌∷◌,
  length, all, ltb, leb, ◌==◌, Option, none, some, tolower, strncase_eq, IsFree, AreTokens,
  Bool-cases, inl, inr,
}
use lcdpico_34401a.Command.Tree.{
  Handler, Level, sentinel, entry, Subcommands, null, level, Found, find,
}
use lcdpico_34401a.Command.Spelling.{
  is_spelling, is_word, strncase_eq-spelling, strncase_eq-later, and_both,
}
use lcdpico_34401a.Command.Paths.{Resolves, leaf, down}

-- An entry that stands in a level.
pub data Has {S : Type 0} : Level S → List ℕ → ℕ → Subcommands S → Option (Handler S) → Type 0 where
  here :
      {cmd : List ℕ} {m : ℕ} {subs : Subcommands S} {f : Option (Handler S)} {more : Level S}
      → Has (entry cmd m subs f more) cmd m subs f
  there :
      {cmd cmd' : List ℕ} {m m' : ℕ} {subs subs' : Subcommands S} {f f' : Option (Handler S)}
      {more : Level S}
      → Has more cmd m subs f
      → Has (entry cmd' m' subs' f' more) cmd m subs f

-- A name and how many of its bytes have to be given.
abbrev pub Title : Type 0
Title = List ℕ × ℕ

-- The entries that lead from a level down to a handler, and the handler's level.
pub data Route {S : Type 0} : Level S → Title → List Title → Handler S → Level S → Type 0 where
  stop :
      {l : Level S} {cmd : List ℕ} {m : ℕ} {subs : Subcommands S} {h : Handler S}
      → Has l cmd m subs (some h)
      → Route l (cmd, m) [] h l
  descend :
      {l sub p : Level S} {cmd : List ℕ} {m : ℕ} {f : Option (Handler S)} {t : Title}
      {ts : List Title} {h : Handler S}
      → Has l cmd m (level sub) f
      → Route sub t ts h p
      → Route l (cmd, m) (t ∷ ts) h p

-- One spelling for each name.
unfoldable pub are_spellings : List Title → List (List ℕ) → Bool
are_spellings [] [] = true
are_spellings [] (s ∷ ss) = false
are_spellings (t ∷ ts) [] = false
are_spellings (t ∷ ts) (s ∷ ss) = is_spelling t.1 t.0 s && are_spellings ts ss

-- No entry of the level agrees with the name `cmd'`, nor can with a spelling of another.
unfoldable pub hides_none : {S : Type 0} → List ℕ → ℕ → Level S → Bool
hides_none cmd' n sentinel = true
hides_none cmd' n (entry cmd m subs f more) =
    not (strncase_eq n cmd cmd') && (is_word m cmd' && hides_none cmd' n more)

-- What a name is made of: no blank, and no colon.
abbrev pub is_plain : ℕ → Bool
is_plain c = ltb 32 c && not (c == b':')

-- The names are plain and no shorter than what has to be given of them, and no entry stands before
-- another that it agrees with, on this level and below.
unfoldable mutual
  pub is_clear : {S : Type 0} → Level S → Bool
  is_clear sentinel = true
  is_clear (entry cmd m subs f more) =
      (leb m (length cmd) && (ltb 0 m && all is_plain cmd))
      && (hides_none cmd m more && (is_clear_below subs && is_clear more))

  pub is_clear_below : {S : Type 0} → Subcommands S → Bool
  is_clear_below null = true
  is_clear_below (level sub) = is_clear sub

-- What `is_clear` says of a level's first entry.
record FirstIsClear {S : Type 0} (cmd : List ℕ) (m : ℕ) (subs : Subcommands S) (more : Level S)
    : Type 0 where
  fits : leb m (length cmd) ≡ true
  given : ltb 0 m ≡ true
  plain : all is_plain cmd ≡ true
  hides : hides_none cmd m more ≡ true
  below : is_clear_below subs ≡ true
  behind : is_clear more ≡ true

is_clear-first :
    {S : Type 0} (cmd : List ℕ) (m : ℕ) (subs : Subcommands S) (f : Option (Handler S))
    (more : Level S)
    → is_clear (entry cmd m subs f more) ≡ true
    → FirstIsClear cmd m subs more
unfolding is_clear
is_clear-first cmd m subs f more h =
    let a =
      and_both (leb m (length cmd) && (ltb 0 m && all is_plain cmd))
        (hides_none cmd m more && (is_clear_below subs && is_clear more)) h in
    let b = and_both (leb m (length cmd)) (ltb 0 m && all is_plain cmd) a.0 in
    let c = and_both (ltb 0 m) (all is_plain cmd) b.1 in
    let d = and_both (hides_none cmd m more) (is_clear_below subs && is_clear more) a.1 in
    let e = and_both (is_clear_below subs) (is_clear more) d.1 in
    record { fits = b.0; given = c.0; plain = c.1; hides = d.0; below = e.0; behind = e.1 }

leb→le : (a b : ℕ) → leb a b ≡ true → a ≤ b
leb→le a b h = ground arith

hides_none-Has :
    {S : Type 0} {l : Level S} {cmd : List ℕ} {m : ℕ} {subs : Subcommands S}
    {f : Option (Handler S)} (cmd' : List ℕ) (n : ℕ)
    → Has l cmd m subs f
    → hides_none cmd' n l ≡ true
    → (strncase_eq n cmd cmd' ≡ false) × (is_word m cmd' ≡ true)
unfolding hides_none
hides_none-Has cmd' n (here {cmd = cmd} {m = m} {more = more}) h =
    let a = and_both (not (strncase_eq n cmd cmd')) (is_word m cmd' && hides_none cmd' n more) h in
    (ground arith, (and_both (is_word m cmd') (hides_none cmd' n more) a.1).0)
hides_none-Has cmd' n (there {cmd' = c} {m' = m} {more = more} q) h =
    let a = and_both (not (strncase_eq n c cmd')) (is_word m cmd' && hides_none cmd' n more) h in
    hides_none-Has cmd' n q (and_both (is_word m cmd') (hides_none cmd' n more) a.1).1

-- The search finds the entry that is spelled.
find-Has :
    {S : Type 0} {l : Level S} {cmd : List ℕ} {m : ℕ} {subs : Subcommands S}
    {f : Option (Handler S)} (s : List ℕ)
    → is_clear l ≡ true
    → Has l cmd m subs f
    → is_spelling m cmd s ≡ true
    → find l s ≡ some (record { subcmds = subs; func = f })
unfolding find
find-Has s c (here {cmd = cmd} {m = m}) h = rw (strncase_eq-spelling m cmd s h) refl
find-Has s c
      (there {cmd = cmd} {cmd' = cmd'} {m = m} {m' = m'} {subs' = subs'} {f' = f'} {more = more} q)
      h =
    let first = is_clear-first cmd' m' subs' f' more c in
    let apart = hides_none-Has cmd' m' q first.hides in
    let fits : m' ≤ length cmd' = leb→le m' (length cmd') first.fits in
    rw (strncase_eq-later m m' cmd cmd' s h apart.1 fits apart.0) (find-Has s first.behind q h)
