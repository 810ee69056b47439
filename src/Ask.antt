-- ===== src/Ask.antt =====
-- The prompts of a session and their answers: unbien-cli/src/ask.ts. `string_of` is what `String(x)`
-- returns for an `x` that is no string.
pub mod Notices
use un_bien.Prelude.{
  ℕ, Bool, true, false, ◌&&◌, ◌||◌, not, Option, none, some, List, [], ◌∷◌, ◌++◌, Text, text_eq,
  text_starts_with, contains, codes, if◌then◌else◌, option_else, keep, ◌⊎◌, inl, inr,
}
use un_bien.Prelude.Dict
use un_bien.Prelude.Dict.{Dict}
use un_bien.Json.{Value, str, member, as_text}
use un_bien.Transcript.{or_default, text_from, level_of}

pub data NotifyRouting : Type 0 where
  dismiss : Text → NotifyRouting
  show_notice : Text → Text → NotifyRouting
  drop_notice : NotifyRouting

abbrev pub notice_text : (Option Value → Text) → Value → Text
notice_text string_of frame =
    text_from string_of (some (or_default (member frame (codes "message")) (str [])))

abbrev pub command_prefix : Text
command_prefix = codes "cmd-notify-"

-- The last three cases, for a notice that is no warning, by its id.
unfoldable pub route_by_id : Text → Text → (Text → Bool) → Option Text → NotifyRouting
route_by_id level text is_open none = show_notice level text
route_by_id level text is_open (some []) = show_notice level text
route_by_id level text is_open (some (c ∷ id)) =
    if is_open (c ∷ id) then dismiss (c ∷ id) else drop_notice

-- Does a notice stay what it is, whatever is open?
abbrev pub is_plain_notice : Text → Option Text → Bool
is_plain_notice level id =
    option_else id false (λ t. text_starts_with t command_prefix)
    || (text_eq level (codes "warning") || text_eq level (codes "error"))

unfoldable pub route_notify : (Option Value → Text) → Value → (Text → Bool) → NotifyRouting
unfolding route_by_id member as_text or_default
route_notify string_of frame is_open =
    let id = as_text (member frame (codes "id")) in
    let level = level_of string_of frame in
    if is_plain_notice level id
    then show_notice level (notice_text string_of frame)
    else route_by_id level (notice_text string_of frame) is_open id

-- `replayed` is absent where no window was in flight.
unfoldable pub stale_flows : List Text → Option (List Text) → List Text
stale_flows shown none = []
stale_flows shown (some replayed) = keep (λ id. not (contains replayed id)) shown

pub record AskAnswer : Type 0 where
  pub values : Option (List Text)
  pub custom_text : Option Text

-- Of a prompt: its id, and of its `ask` the flow's id and those of the questions.
pub record AskEnrichment : Type 0 where
  pub flow_id : Text
  pub questions : List Text

pub record AskPrompt : Type 0 where
  pub id : Text
  pub ask : Option AskEnrichment

-- The `extension_ui_response` of each kind.
pub data AskResponse : Type 0 where
  answered : Text → Text → Text → Dict AskAnswer → AskResponse
  cancelled : Text → Text → AskResponse
  confirmed : Text → Bool → AskResponse
  picked : Text → Text → AskResponse

abbrev pub flow_of : AskPrompt → Text
flow_of prompt = option_else prompt.ask prompt.id (λ a. a.flow_id)

-- `.join(", ")`
unfoldable pub join_values : List Text → Text
join_values [] = []
join_values (t ∷ []) = t
join_values (t ∷ u ∷ ts) = t ++ (codes ", " ++ join_values (u ∷ ts))

abbrev pub first_question : AskPrompt → Option Text
first_question prompt =
    option_else prompt.ask none λ a. elim a.questions [ [] ↦ none | q ∷ qs ↦ some q ]

-- The scalar for a client that knows no `ask`.
abbrev pub scalar_value : Option AskAnswer → Text
scalar_value none = []
scalar_value (some a) = option_else a.custom_text (option_else a.values [] join_values) (λ t. t)

unfoldable pub answer_response : AskPrompt → Dict AskAnswer → AskResponse
unfolding join_values
answer_response prompt answers =
    answered prompt.id (scalar_value (option_else (first_question prompt) none (Dict.get answers)))
      (flow_of prompt) answers

unfoldable pub cancel_response : AskPrompt → AskResponse
cancel_response prompt = cancelled prompt.id (flow_of prompt)

unfoldable pub plain_response : AskPrompt → Text ⊎ Bool → AskResponse
plain_response prompt (inl text) = picked prompt.id text
plain_response prompt (inr agreed) = confirmed prompt.id agreed
