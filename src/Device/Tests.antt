-- ===== src/Device/Tests.antt =====
-- A draft and a photo of one user, beside those of another.
use fieldpro_pilot.Base.{
  arith, true, eq_text_iff, ◌≡◌, refl, false, none, some, [], ◌∷◌, text, eq_text, is_empty,
}
use fieldpro_pilot.Device.{Draft, no_identity, Drafts, save_stop_draft, load_stop_draft}
use fieldpro_pilot.Device.Laws.{stored_draft, load_stop_draft-save_stop_draft}

abbrev draft : Draft
draft = record {
  route_run_stop_id = 7;
  step_index = 2;
  step_key = none;
  trash_volume = some 1;
  wizard = [];
}

abbrev drafts : Drafts
drafts = (text "t:v:7", stored_draft 3 draft) ∷ []

identified : no_identity (text "t") (text "u") ≡ false
unfolding is_empty
identified = refl

abbrev Same : Type 0
Same = (text "t" ≡ text "t") × (text "u" ≡ text "v") × (text "7" ≡ text "7")

other_user : Same → ⊥
unfolding eq_text
other_user (t, o, s) =
    let same : eq_text (text "u") (text "v") ≡ true = (eq_text_iff (text "u") (text "v")).1 o in
    absurd (ground arith)

save_example :
    (load_stop_draft
        (text "t")
        (text "u")
        (text "7")
        (save_stop_draft 5 (text "t") (text "u") (text "7") draft drafts)
      ≡ some (stored_draft 5 draft))
    × (load_stop_draft
          (text "t")
          (text "v")
          (text "7")
          (save_stop_draft 5 (text "t") (text "u") (text "7") draft drafts)
        ≡ load_stop_draft (text "t") (text "v") (text "7") drafts)
save_example =
    load_stop_draft-save_stop_draft 5 (text "t") (text "u") (text "7") (text "t") (text "v")
      (text "7") draft drafts identified (refl, tt) (refl, tt) (refl, tt) (refl, tt) other_user
