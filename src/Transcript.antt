-- ===== src/Transcript.antt =====
-- The transcript of a client: `reduce` of unbien-cli/src/reduce.ts, which folds a stream of envelopes
-- into rows, and `entriesToEnvelopes`, which makes a stream of a stored history. A tool card is an
-- object that the rows and the map of cards share: the map holds its place among the rows.
-- `string_of` is what `String(x)` returns for an `x` that is no string.
pub mod Rows
pub mod History
pub mod Replay
pub mod Settling
pub mod Steps
pub mod Results
use un_bien.Prelude.{
  ℕ, zero, suc, ◌+◌, Bool, true, false, ◌&&◌, ◌||◌, not, Option, none, some, List, [], ◌∷◌, ◌++◌,
  Text, text_eq, codes, if◌then◌else◌, option_else, length,
}
use un_bien.Prelude.Dict
use un_bien.Prelude.Dict.{Dict}
use un_bien.Json.{
  Value, Items, Fields, null, bool, num, str, arr, obj, nil, cons, end, field, member, as_text,
  is_true, is_object, has_type,
}

pub record ToolResult : Type 0 where
  pub content : Value
  pub details : Option Value
  pub is_error : Bool

pub record ToolCard : Type 0 where
  pub tool_call_id : Text
  pub tool_name : Text
  pub args : Option Value
  pub result : Option ToolResult

pub data TranscriptItem : Type 0 where
  message : Value → TranscriptItem
  tool : ToolCard → TranscriptItem
  notice : Text → Text → TranscriptItem

pub record Transcript : Type 0 where
  pub items : List TranscriptItem
  pub tools_by_id : Dict ℕ

abbrev pub empty_transcript : Transcript
empty_transcript = record { items = []; tools_by_id = [] }

-- `x ?? d`
unfoldable pub or_default : Option Value → Value → Value
or_default none d = d
or_default (some null) d = d
or_default (some (bool b)) d = bool b
or_default (some (num n)) d = num n
or_default (some (str s)) d = str s
or_default (some (arr xs)) d = arr xs
or_default (some (obj fs)) d = obj fs

-- `!x`
unfoldable pub is_falsy : Value → Bool
is_falsy (bool b) = not b
is_falsy null = true
is_falsy (num zero) = true
is_falsy (num (suc n)) = false
is_falsy (str []) = true
is_falsy (str (c ∷ s)) = false
is_falsy (arr xs) = false
is_falsy (obj fs) = false

-- `String(x)`
abbrev pub text_from : (Option Value → Text) → Option Value → Text
text_from string_of v = option_else (as_text v) (string_of v) (λ t. t)

abbrev pub set_result : ToolResult → TranscriptItem → TranscriptItem
set_result r (tool card) = tool (record card { result = some r })
set_result r (message m) = message m
set_result r (notice level text) = notice level text

abbrev pub update_at : ℕ → ToolResult → List TranscriptItem → List TranscriptItem
update_at n r [] = []
update_at zero r (i ∷ is) = set_result r i ∷ is
update_at (suc n) r (i ∷ is) = i ∷ update_at n r is

unfoldable pub push_row : Transcript → TranscriptItem → Transcript
push_row t i = record t { items = t.items ++ (i ∷ []) }

abbrev pub has_role : Value → Text → Bool
has_role m role = option_else (as_text (member m (codes "role"))) false (λ r. text_eq r role)

unfoldable pub on_message_end : Transcript → Value → Transcript
unfolding push_row is_falsy member as_text
on_message_end t rpc =
    option_else (member rpc (codes "message")) t
      λ m. if is_falsy m || has_role m (codes "toolResult") then t else push_row t (message m)

abbrev pub card_of : (Option Value → Text) → Value → ToolCard
card_of string_of rpc = record {
  tool_call_id = text_from string_of (member rpc (codes "toolCallId"));
  tool_name = text_from string_of (member rpc (codes "toolName"));
  args = member rpc (codes "args");
  result = none;
}

unfoldable pub on_tool_start : (Option Value → Text) → Transcript → Value → Transcript
unfolding member as_text
on_tool_start string_of t rpc =
    let card = card_of string_of rpc in
    record {
      items = t.items ++ (tool card ∷ []);
      tools_by_id = Dict.set t.tools_by_id card.tool_call_id (length t.items);
    }

abbrev pub result_of : Value → ToolResult
result_of rpc = record {
  content =
      or_default (option_else (member rpc (codes "result")) none (λ r. member r (codes "content")))
        (arr nil);
  details = option_else (member rpc (codes "result")) none (λ r. member r (codes "details"));
  is_error = is_true (member rpc (codes "isError"));
}

unfoldable pub on_tool_end : (Option Value → Text) → Transcript → Value → Transcript
unfolding member as_text
on_tool_end string_of t rpc =
    option_else (Dict.get t.tools_by_id (text_from string_of (member rpc (codes "toolCallId")))) t
      λ n. record t { items = update_at n (result_of rpc) t.items }

abbrev pub level_of : (Option Value → Text) → Value → Text
level_of string_of rpc =
    text_from string_of (some (or_default (member rpc (codes "notifyType")) (str (codes "info"))))

-- The notices that a client must act on.
abbrev pub is_actionable : (Option Value → Text) → Value → Bool
is_actionable string_of rpc =
    option_else (as_text (member rpc (codes "method"))) false (λ m. text_eq m (codes "notify"))
    && (text_eq (level_of string_of rpc) (codes "warning")
        || text_eq (level_of string_of rpc) (codes "error"))

abbrev pub notice_of : (Option Value → Text) → Value → TranscriptItem
notice_of string_of rpc =
    notice (level_of string_of rpc)
      (text_from string_of (some (or_default (member rpc (codes "message")) (str []))))

unfoldable pub on_ui_request : (Option Value → Text) → Transcript → Value → Transcript
unfolding push_row or_default member as_text
on_ui_request string_of t rpc =
    if is_actionable string_of rpc then push_row t (notice_of string_of rpc) else t

-- The `switch` on the type of a frame.
unfoldable pub reduce_frame : (Option Value → Text) → Transcript → Value → Transcript
unfolding on_message_end on_tool_start on_tool_end on_ui_request has_type
reduce_frame string_of t rpc =
    if has_type rpc (codes "message_end")
    then on_message_end t rpc
    else if has_type rpc (codes "tool_execution_start")
    then on_tool_start string_of t rpc
    else if has_type rpc (codes "tool_execution_end")
    then on_tool_end string_of t rpc
    else if has_type rpc (codes "extension_ui_request")
    then on_ui_request string_of t rpc
    else t

-- The envelopes, by what their `rpc` is.
unfoldable pub reduce : (Option Value → Text) → Transcript → List (Option Value) → Transcript
unfolding reduce_frame is_object
reduce string_of t [] = t
reduce string_of t (none ∷ rest) = reduce string_of t rest
reduce string_of t (some rpc ∷ rest) =
    reduce string_of (if is_object rpc then reduce_frame string_of t rpc else t) rest
