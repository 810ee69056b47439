-- ===== src/Tests/Prompts.antt =====
-- A notice that retracts a prompt, and a reconciliation window.
use un_bien.Prelude.{
  ◌≡◌, refl, Bool, true, inr, Option, some, none, [], ◌∷◌, Text, text_eq, text_starts_with, codes,
  contains,
}
use un_bien.Json.{Value, str, obj, field, end, member, as_text}
use un_bien.Prelude.Dict
use un_bien.Ask.{
  AskPrompt, answered, dismiss, show_notice, route_notify, stale_flows, answer_response,
  cancel_response, cancelled, plain_response, confirmed,
}
use un_bien.Ask.Notices.{Routed, says, route_notify-Routed}

abbrev string_of : Option Value → Text
string_of v = codes "undefined"

abbrev resolved : Value
resolved =
    obj (field (codes "id") (str (codes "f1")) (field (codes "message") (str (codes "done")) end))

abbrev is_open : Text → Bool
is_open id = text_eq id (codes "f1")

route_notify_run : route_notify string_of resolved is_open ≡ dismiss (codes "f1")
unfolding route_notify text_eq text_starts_with
route_notify_run = refl

route_notify-Routed_example :
    Routed
      (says string_of (codes "info") (member resolved (codes "notifyType")))
      (says string_of [] (member resolved (codes "message")))
      (as_text (member resolved (codes "id")))
      is_open
      (route_notify string_of resolved is_open)
route_notify-Routed_example = route_notify-Routed string_of resolved is_open

-- A warning about an open prompt is shown and leaves the prompt.
abbrev refused : Value
refused = obj (
    field (codes "id") (str (codes "f1")) (
      field (codes "notifyType") (str (codes "warning"))
        (field (codes "message") (str (codes "late")) end)))

route_notify_warning_run :
    route_notify string_of refused is_open ≡ show_notice (codes "warning") (codes "late")
unfolding route_notify text_eq text_starts_with
route_notify_warning_run = refl

stale_flows_run :
    stale_flows (codes "f1" ∷ codes "f2" ∷ []) (some (codes "f2" ∷ [])) ≡ codes "f1" ∷ []
unfolding stale_flows contains text_eq
stale_flows_run = refl

-- No window was in flight.
stale_flows_open_run : stale_flows (codes "f1" ∷ []) none ≡ []
unfolding stale_flows
stale_flows_open_run = refl

abbrev prompt : AskPrompt
prompt = record {
  id = codes "f1";
  ask = some (record { flow_id = codes "f1"; questions = codes "q" ∷ [] });
}

answer_response_run :
    answer_response prompt
      ((codes "q", record { values = some (codes "a" ∷ codes "b" ∷ []); custom_text = none }) ∷ [])
    ≡ answered (codes "f1") (codes "a, b") (codes "f1") (
        (codes "q", record { values = some (codes "a" ∷ codes "b" ∷ []); custom_text = none }) ∷ [])
unfolding answer_response Dict.get text_eq
answer_response_run = refl

cancel_response_run : cancel_response prompt ≡ cancelled (codes "f1") (codes "f1")
unfolding cancel_response
cancel_response_run = refl

plain_response_run : plain_response prompt (inr true) ≡ confirmed (codes "f1") true
unfolding plain_response
plain_response_run = refl
