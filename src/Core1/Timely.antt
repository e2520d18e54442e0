-- ===== src/Core1/Timely.antt =====
-- What each round of the loop does with new data, and how often the display is refreshed.
use lcdpico_34401a.Common.{
  ℕ, ◌+◌, ◌*◌, ◌≤◌, ◌≡◌, refl, arith, Bool, true, false, not, ◌||◌, Bool-cases, inl, inr, ◌==◌, ltb,
  ap, ◌∙◌, if◌then◌else◌,
}
use lcdpico_34401a.Decoder.State.{Context}
use lcdpico_34401a.Decoder.Process.{Scanners, process}
use lcdpico_34401a.Screen.Task.{display_status}
use lcdpico_34401a.Core1.{
  Core1, Round, Images, time_passed, has_news, update_config, update_state, decode, refresh_display,
  core1_round, call_of,
}

-- The test of the display's timer, and the test for new data.
abbrev must_refresh : {C : Type 0} → Round C → Core1 C → Bool
must_refresh r c = (time_passed c.t_display 250 r.display_now).0 || has_news c

neither : (a b : Bool) → (a || b) ≡ false → (a ≡ false) × (b ≡ false)
neither true b h = absurd (ground arith)
neither false b h = (refl, h)

no_news : (new last : ℕ) → not (new == last) ≡ false → last ≡ new
no_news new last h = ground arith

-- A timer that has not passed stays, and its time is not over.
not_passed :
    (t ms now : ℕ) → (time_passed t ms now).0 ≡ false → now ≤ (time_passed t ms now).1 + ms * 1000
unfolding time_passed
not_passed t ms now h = ground (arith, h)

refresh_display-seen :
    {C : Type 0} (images : Images) (r : Round C) (c : Core1 C)
    → (refresh_display images r c).dmm_last
      ≡ (refresh_display images r c).dmm.display.new_data_counter
unfolding refresh_display
refresh_display-seen images r c = elim (Bool-cases (must_refresh r c)) [
  | inl e ↦ rw e refl
  | inr e ↦ rw e (
      no_news c.dmm.display.new_data_counter c.dmm_last
        (neither (time_passed c.t_display 250 r.display_now).0 (has_news c) e).1)
]

refresh_display-timely :
    {C : Type 0} (images : Images) (r : Round C) (c : Core1 C)
    → r.display_now ≤ r.after
    → r.display_now ≤ (refresh_display images r c).t_display + 250000
unfolding refresh_display
refresh_display-timely images r c h = elim (Bool-cases (must_refresh r c)) [
  | inl e ↦ rw e (omega arith)
  | inr e ↦ rw e (
      not_passed c.t_display 250 r.display_now
        (neither (time_passed c.t_display 250 r.display_now).0 (has_news c) e).0)
]

refresh_display-dmm :
    {C : Type 0} (images : Images) (r : Round C) (c : Core1 C)
    → (refresh_display images r c).dmm ≡ c.dmm
unfolding refresh_display
refresh_display-dmm images r c = elim (Bool-cases (must_refresh r c)) [
  | inl e ↦ rw e refl
  | inr e ↦ rw e refl
]

-- What is due is handed on: new data with the flag for it, otherwise nothing but the time.
refresh_display-hands_on :
    {C : Type 0} (images : Images) (r : Round C) (c : Core1 C)
    → let news : Bool = not (c.dmm.display.new_data_counter == c.dmm_last) in
      let late : Bool = c.t_display == 0 || ltb (c.t_display + 250000) r.display_now in
      ((refresh_display images r c).task ≡ (
        if late || news
        then display_status r.display_active news
            (call_of images r)
            r.message_now
            r.ann_now
            c.dmm.display
            c.dmm.message
            c.task
        else c.task))
      × ((refresh_display images r c).t_display ≡ (if late || news then r.after else c.t_display))
unfolding refresh_display time_passed
refresh_display-hands_on images r c =
    elim (Bool-cases (c.t_display == 0 || ltb (c.t_display + 250000) r.display_now)) [
      | inl e ↦ ground (arith, e)
      | inr e ↦ ground (arith, e)
    ]

-- In every round, `display_status` is called on what the decoder then has if there is new data or
-- the timer was never set or is more than 250 ms old, told whether there is new data, and the timer
-- is set to the time behind the call; otherwise the task and the timer stay. Afterwards all new data
-- is marked as handed over, and at most 250 ms have passed since the display was refreshed last, at
-- the time when the round looked, provided that the timer does not run backwards.
pub core1_round-timely :
    {C : Type 0} (rx : Scanners) (images : Images) (r : Round C) (c : Core1 C)
    → r.display_now ≤ r.after
    → let c' : Core1 C = core1_round rx images r c in
      let ctx : Context = process rx r.decoder c.dmm in
      let news : Bool = not (ctx.display.new_data_counter == c.dmm_last) in
      let late : Bool = c.t_display == 0 || ltb (c.t_display + 250000) r.display_now in
      (c'.dmm ≡ ctx)
      × (c'.task ≡ (
          if late || news
          then display_status r.display_active news
              (call_of images r)
              r.message_now
              r.ann_now
              ctx.display
              ctx.message
              c.task
          else c.task))
      × (c'.t_display ≡ (if late || news then r.after else c.t_display))
      × (c'.dmm_last ≡ ctx.display.new_data_counter)
      × (r.display_now ≤ c'.t_display + 250000)
unfolding core1_round update_config update_state decode
core1_round-timely rx images r c h =
    let before = decode rx r (update_state r (update_config r c)) in
    let same = refresh_display-dmm images r before in
    let handed = refresh_display-hands_on images r before in
    (
      same,
      handed.0,
      handed.1,
      refresh_display-seen images r before ∙ ap (λ (x : Context). x.display.new_data_counter) same,
      refresh_display-timely images r before h,
    )
