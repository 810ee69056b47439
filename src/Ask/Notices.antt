-- ===== src/Ask/Notices.antt =====
-- Where a notice goes: it is shown, retracts a prompt, or is dropped.
use un_bien.Prelude.{
  ◌≡◌, refl, ap, subst, Bool, true, false, ◌||◌, Option, none, some, [], ◌∷◌, ◌++◌, Text, text_eq,
  eq_of_text_eq, text_eq_iff, text_starts_with, codes, if_elim, option_else, Bool-cases, arith, ◌≢◌,
  ◌⊎◌, inl, inr, false≢true,
}
use un_bien.Json.{Value, null, bool, num, str, arr, obj, member, as_text}
use un_bien.Transcript.{level_of, text_from, or_default}
use un_bien.Ask.{
  NotifyRouting, dismiss, show_notice, drop_notice, route_by_id, route_notify, is_plain_notice,
  notice_text, command_prefix,
}

-- What a member of a frame says: its text, or `String` of it, or `missing` where it is absent or null.
abbrev pub says : (Option Value → Text) → Text → Option Value → Text
says string_of missing none = missing
says string_of missing (some null) = missing
says string_of missing (some (str t)) = t
says string_of missing (some (bool b)) = string_of (some (bool b))
says string_of missing (some (num n)) = string_of (some (num n))
says string_of missing (some (arr xs)) = string_of (some (arr xs))
says string_of missing (some (obj fs)) = string_of (some (obj fs))

-- The report of a command.
abbrev pub IsReport : Option Text → Type 0
IsReport id = (rest : Text) × (id ≡ some (codes "cmd-notify-" ++ rest))

abbrev pub IsAlarm : Text → Type 0
IsAlarm level = (level ≡ codes "warning") ⊎ (level ≡ codes "error")

-- Which of the three becomes of a notice, and on what conditions: the report of a command, a warning
-- or an error, and one without an id are shown; of the others, those of an open prompt retract it.
pub data Routed (level text : Text) (id : Option Text) (is_open : Text → Bool)
    : NotifyRouting → Type 0 where
  report : IsReport id → Routed level text id is_open (show_notice level text)
  alarm : IsAlarm level → Routed level text id is_open (show_notice level text)
  unnamed : (id ≡ none) ⊎ (id ≡ some []) → Routed level text id is_open (show_notice level text)
  retracted :
      (shown : Text)
      → id ≡ some shown
      → shown ≢ []
      → ¬ IsReport id
      → ¬ IsAlarm level
      → is_open shown ≡ true
      → Routed level text id is_open (dismiss shown)
  dropped :
      (other : Text)
      → id ≡ some other
      → other ≢ []
      → ¬ IsReport id
      → ¬ IsAlarm level
      → is_open other ≡ false
      → Routed level text id is_open drop_notice

level_of-says :
    (string_of : Option Value → Text) (v : Option Value) (missing : Text)
    → text_from string_of (some (or_default v (str missing))) ≡ says string_of missing v
unfolding or_default as_text
level_of-says string_of none missing = refl
level_of-says string_of (some null) missing = refl
level_of-says string_of (some (str t)) missing = refl
level_of-says string_of (some (bool b)) missing = refl
level_of-says string_of (some (num n)) missing = refl
level_of-says string_of (some (arr xs)) missing = refl
level_of-says string_of (some (obj fs)) missing = refl

rest_of_prefix : (t p : Text) → text_starts_with t p ≡ true → (rest : Text) × (t ≡ p ++ rest)
unfolding text_starts_with
rest_of_prefix t [] h = (t, refl)
rest_of_prefix [] (c ∷ p) h = absurd (false≢true h)
rest_of_prefix (d ∷ t) (c ∷ p) h =
    let r = rest_of_prefix t p (ground arith) in
    let same : d ≡ c = ground arith in (r.0, rw same (ap (λ x. c ∷ x) r.1))

starts_with-append : (p rest : Text) → text_starts_with (p ++ rest) p ≡ true
unfolding text_starts_with
starts_with-append [] rest = refl
starts_with-append (c ∷ p) rest = ground (arith, starts_with-append p rest)

prefix-IsReport :
    (id : Option Text)
    → option_else id false (λ t. text_starts_with t command_prefix) ≡ true
    → IsReport id
prefix-IsReport none h = absurd (false≢true h)
prefix-IsReport (some t) h = let r = rest_of_prefix t command_prefix h in (r.0, ap some r.1)

prefix-of_IsReport :
    (id : Option Text)
    → IsReport id
    → option_else id false (λ t. text_starts_with t command_prefix) ≡ true
prefix-of_IsReport id h = rw h.1 (starts_with-append command_prefix h.0)

level-IsAlarm :
    (level : Text)
    → (text_eq level (codes "warning") || text_eq level (codes "error")) ≡ true
    → IsAlarm level
level-IsAlarm level h =
    ground (arith, eq_of_text_eq level (codes "warning"), eq_of_text_eq level (codes "error"))

level-of_IsAlarm :
    (level : Text)
    → IsAlarm level
    → (text_eq level (codes "warning") || text_eq level (codes "error")) ≡ true
level-of_IsAlarm level (inl e) = ground (arith, text_eq_iff level (codes "warning"))
level-of_IsAlarm level (inr e) = ground (arith, text_eq_iff level (codes "error"))

plain-Routed :
    (level text : Text) (id : Option Text) (is_open : Text → Bool)
    → is_plain_notice level id ≡ true
    → Routed level text id is_open (show_notice level text)
plain-Routed level text id is_open h =
    elim (Bool-cases (option_else id false (λ t. text_starts_with t command_prefix))) [
      | inl e ↦ report (prefix-IsReport id e)
      | inr e ↦ alarm (level-IsAlarm level (ground arith))
    ]

route_by_id-Routed :
    (level text : Text) (is_open : Text → Bool) (id : Option Text)
    → is_plain_notice level id ≡ false
    → Routed level text id is_open (route_by_id level text is_open id)
unfolding route_by_id
route_by_id-Routed level text is_open none calm = unnamed (inl refl)
route_by_id-Routed level text is_open (some []) calm = unnamed (inr refl)
route_by_id-Routed level text is_open (some (c ∷ id)) calm =
    if_elim (Routed level text (some (c ∷ id)) is_open) (is_open (c ∷ id))
      (retracted (c ∷ id) refl (λ e. cc) no_report no_alarm)
      (dropped (c ∷ id) refl (λ e. cc) no_report no_alarm)
  where
    no_report : ¬ IsReport (some (c ∷ id))
    no_report h = false≢true (ground (arith, prefix-of_IsReport (some (c ∷ id)) h))

    no_alarm : ¬ IsAlarm level
    no_alarm h = false≢true (ground (arith, level-of_IsAlarm level h))

-- A notice goes to one of three places, by its id, its level ("info" if it has none) and its message.
-- It is shown with them if it reports a command, is a warning or an error, or has no id or an empty
-- one. Any other retracts the prompt of its id if that is open, and is dropped if it is not.
pub route_notify-Routed :
    (string_of : Option Value → Text) (frame : Value) (is_open : Text → Bool)
    → Routed
        (says string_of (codes "info") (member frame (codes "notifyType")))
        (says string_of [] (member frame (codes "message")))
        (as_text (member frame (codes "id")))
        is_open
        (route_notify string_of frame is_open)
unfolding route_notify
route_notify-Routed string_of frame is_open =
    subst
      (λ l.
        Routed l (says string_of [] (member frame (codes "message"))) id is_open
          (route_notify string_of frame is_open))
      (level_of-says string_of (member frame (codes "notifyType")) (codes "info"))
      (subst
        (λ x. Routed (level_of string_of frame) x id is_open (route_notify string_of frame is_open))
        (level_of-says string_of (member frame (codes "message")) [])
        (if_elim (Routed (level_of string_of frame) (notice_text string_of frame) id is_open)
          (is_plain_notice (level_of string_of frame) id)
          (plain-Routed (level_of string_of frame) (notice_text string_of frame) id is_open)
          (route_by_id-Routed (level_of string_of frame) (notice_text string_of frame) is_open id)))
  where
    id : Option Text
    id = as_text (member frame (codes "id"))
