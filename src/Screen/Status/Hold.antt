-- ===== src/Screen/Status/Hold.antt =====
-- A doubtful message waits for 300 ms, and a known one is shown at once.
use mathlib.Core.Path.{subst}
use lcdpico_34401a.Common.{
  ℕ, ◌+◌, ◌≤◌, ◌<◌, ◌≡◌, refl, sym, ap, ◌∙◌, arith, Bool, true, false, not, ◌&&◌, ◌||◌, ◌==◌, List,
  [], ◌∷◌, if◌then◌else◌, Bool-cases, inl, inr,
}
use lcdpico_34401a.Decoder.State.{Display, Message}
use lcdpico_34401a.Screen.Cells.{Cell, cells_of}
use lcdpico_34401a.Screen.Status.{
  Status, show, menu_changed, ann_changed, ann_settled, is_due, poll, lay_out, note_menu, release,
  note_annunciators, note_blink, take_message,
}

-- Calls without new data, one after the other.
unfoldable pub polls : List ℕ → Status → Status
polls [] s = s
polls (now ∷ ts) s = polls ts (poll now s)

abbrev pub AllUntil : ℕ → List ℕ → Type 0
AllUntil t [] = Unit
AllUntil t (now ∷ ts) = (now ≤ t) × AllUntil t ts

-- None of the times is due for a message that waits since then.
abbrev NoneDue : ℕ → List ℕ → Type 0
NoneDue since [] = Unit
NoneDue since (now ∷ ts) = (is_due now since ≡ false) × NoneDue since ts

-- A line that is a reading or a menu line.
abbrev pub is_known : Message → Bool
is_known m = not m.corrupt_msg && (m.valid_reading || m.menu_msg)

-- What is shown and what waits: the state without the notes for the log.
pub record View : Type 0 where
  pub shown : List Cell
  pub shown_txt : List ℕ
  pub waiting : List Cell
  pub waiting_txt : List ℕ
  pub since : ℕ

abbrev pub view : Status → View
view s = record {
  shown = s.cur_disp;
  shown_txt = s.shown_txt;
  waiting = s.disp;
  waiting_txt = s.cur_disp_txt;
  since = s.new_disp_time;
}

view-note_blink : (d : Display) (s : Status) → view (note_blink d s) ≡ view s
unfolding note_blink
view-note_blink d s = elim (Bool-cases (not (d.blink_mask == s.last_blink_mask))) [
  | inl e ↦ rw e refl
  | inr e ↦ rw e refl
]

view-note_annunciators :
    (now : ℕ) (d : Display) (s : Status) → view (note_annunciators now d s) ≡ view s
unfolding note_annunciators
view-note_annunciators now d s = elim (Bool-cases (ann_changed d s)) [
  | inl e ↦ elim (Bool-cases (s.last_ann_change == 0)) [
    | inl k ↦ rw (e, k) refl
    | inr k ↦ rw (e, k) refl
  ]
  | inr e ↦ elim (Bool-cases (ann_settled now s)) [
    | inl k ↦ rw (e, k) refl
    | inr k ↦ rw (e, k) refl
  ]
]

view-note_menu : (d : Display) (m : Message) (s : Status) → view (note_menu d m s) ≡ view s
unfolding note_menu
view-note_menu d m s = elim (Bool-cases (menu_changed d m s)) [
  | inl e ↦ rw e refl
  | inr e ↦ rw e refl
]

-- What a message makes wait, and what one that is known shows.
abbrev pub waits : ℕ → Display → View → View
waits now d v = record v { waiting = cells_of d; waiting_txt = d.main; since = now }

abbrev pub showing : Display → View
showing d = record {
  shown = cells_of d;
  shown_txt = d.main;
  waiting = cells_of d;
  waiting_txt = d.main;
  since = 0;
}

abbrev shown_of : View → View
shown_of v = record v { shown = v.waiting; shown_txt = v.waiting_txt; since = 0 }

view-show : (s : Status) → view (show s) ≡ shown_of (view s)
unfolding show
view-show s = refl

view-release :
    (d : Display) (m : Message) (s : Status)
    → view (release d m s) ≡ (if is_known m then shown_of (view s) else view s)
unfolding release
view-release d m s =
    let noted = view-note_menu d m s in
    elim (Bool-cases m.corrupt_msg) [
      | inl e ↦ rw e refl
      | inr e ↦ elim (Bool-cases (m.valid_reading || m.menu_msg)) [
        | inl k ↦ rw (e, k) (view-show (note_menu d m s) ∙ ap shown_of noted)
        | inr k ↦ rw (e, k) noted
      ]
    ]

-- A message that is known is shown; any other waits.
view-take_message :
    (now ann_now : ℕ) (d : Display) (m : Message) (s : Status)
    → view (take_message now ann_now d m s)
      ≡ (if is_known m then showing d else waits now d (view s))
unfolding take_message lay_out
view-take_message now ann_now d m s =
    view-note_blink d (note_annunciators ann_now d (release d m (lay_out now d s)))
    ∙ (view-note_annunciators ann_now d (release d m (lay_out now d s))
        ∙ view-release d m (lay_out now d s))

view-poll :
    (now : ℕ) (s : Status)
    → view (poll now s) ≡ (if is_due now s.new_disp_time then shown_of (view s) else view s)
unfolding poll show
view-poll now s = elim (Bool-cases (is_due now s.new_disp_time)) [
  | inl e ↦ rw e refl
  | inr e ↦ rw e refl
]

-- A call that is not due changes nothing, and so do calls none of which is due.
polls-hold : (ts : List ℕ) (s : Status) → NoneDue s.new_disp_time ts → view (polls ts s) ≡ view s
unfolding polls
polls-hold [] s h = refl
polls-hold (now ∷ ts) s (early, h) =
    let here : view (poll now s) ≡ view s = rw early at (view-poll now s) in
    polls-hold ts (poll now s) (subst (λ x. NoneDue x ts) (sym (ap View.since here)) h) ∙ here

AllUntil-NoneDue : (ts : List ℕ) (t : ℕ) → AllUntil (t + 300000) ts → NoneDue t ts
AllUntil-NoneDue [] t h = tt
AllUntil-NoneDue (now ∷ ts) t (early, h) = (ground (arith, early), AllUntil-NoneDue ts t h)

zero-NoneDue : (ts : List ℕ) → NoneDue 0 ts
zero-NoneDue [] = tt
zero-NoneDue (now ∷ ts) = (refl, zero-NoneDue ts)

-- After a message that is known, whatever waited before, its cells are shown, and calls without new
-- data, at any times, leave them.
pub take_message-shows :
    (now ann_now : ℕ) (d : Display) (m : Message) (s : Status) (ts : List ℕ)
    → is_known m ≡ true
    → let s' : Status = polls ts (take_message now ann_now d m s) in
      (s'.cur_disp ≡ cells_of d) × (s'.shown_txt ≡ d.main)
take_message-shows now ann_now d m s ts known =
    let taken : view (take_message now ann_now d m s) ≡ showing d =
      rw known at (view-take_message now ann_now d m s) in
    let still =
      polls-hold ts (take_message now ann_now d m s)
        (subst (λ x. NoneDue x ts) (sym (ap View.since taken)) (zero-NoneDue ts)) in
    (ap View.shown (still ∙ taken), ap View.shown_txt (still ∙ taken))

-- A message that is corrupt, or neither a reading nor a menu line, and comes at a time after 0, leaves
-- what is shown during the 300 ms behind it, whatever calls without new data there are; the first
-- call after them shows its cells, and then they stay.
pub take_message-waits :
    (now ann_now : ℕ) (d : Display) (m : Message) (s : Status) (ts us : List ℕ) (late : ℕ)
    → is_known m ≡ false
    → 0 < now
    → AllUntil (now + 300000) ts
    → now + 300000 < late
    → let held : Status = polls ts (take_message now ann_now d m s) in
      let s' : Status = polls us (poll late held) in
      (held.cur_disp ≡ s.cur_disp)
      × (held.shown_txt ≡ s.shown_txt)
      × (s'.cur_disp ≡ cells_of d)
      × (s'.shown_txt ≡ d.main)
take_message-waits now ann_now d m s ts us late doubtful positive early after =
    let taken : view (take_message now ann_now d m s) ≡ waits now d (view s) =
      rw doubtful at (view-take_message now ann_now d m s) in
    let held : Status = polls ts (take_message now ann_now d m s) in
    let still : view held ≡ waits now d (view s) =
      polls-hold ts (take_message now ann_now d m s)
        (subst (λ x. NoneDue x ts) (sym (ap View.since taken)) (AllUntil-NoneDue ts now early))
      ∙ taken in
    let due : is_due late held.new_disp_time ≡ true =
      subst (λ x. is_due late x ≡ true) (sym (ap View.since still))
        (ground (arith, positive, after)) in
    let released : view (poll late held) ≡ showing d =
      (rw due at (view-poll late held)) ∙ ap shown_of still in
    let stays : view (polls us (poll late held)) ≡ showing d =
      polls-hold us (poll late held)
        (subst (λ x. NoneDue x us) (sym (ap View.since released)) (zero-NoneDue us))
      ∙ released in
    (ap View.shown still, ap View.shown_txt still, ap View.shown stays, ap View.shown_txt stays)
