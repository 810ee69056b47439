-- ===== src/Transcript/History.antt =====
-- `entriesToEnvelopes` of unbien-cli/src/reduce.ts: the stream of frames that a stored history is.
use un_bien.Prelude.{
  ◌&&◌, Option, none, some, List, [], ◌∷◌, ◌++◌, map, Text, codes, if◌then◌else◌, option_else,
}
use un_bien.Json.{
  Value, Items, Fields, bool, str, arr, obj, nil, cons, end, field, member, is_true, is_object,
  has_type,
}
use un_bien.Transcript.{has_role}

-- A field whose value is `undefined` reads as one that is not there.
abbrev field_if : Text → Option Value → Fields → Fields
field_if k v rest = option_else v rest (λ x. field k x rest)

abbrev pub message_frame : Value → Value
message_frame m =
    obj (field (codes "type") (str (codes "message_end")) (field (codes "message") m end))

abbrev pub tool_end_frame : Value → Value
tool_end_frame m = obj (
    field (codes "type") (str (codes "tool_execution_end")) (
      field_if (codes "toolCallId") (member m (codes "toolCallId")) (
        field_if (codes "toolName") (member m (codes "toolName")) (
          field (codes "result")
            (obj (
              field_if (codes "content") (member m (codes "content"))
                (field_if (codes "details") (member m (codes "details")) end)))
            (field (codes "isError") (bool (is_true (member m (codes "isError")))) end)))))

abbrev pub tool_start_frame : Value → Value
tool_start_frame call = obj (
    field (codes "type") (str (codes "tool_execution_start")) (
      field_if (codes "toolCallId") (member call (codes "id")) (
        field_if (codes "toolName") (member call (codes "name"))
          (field_if (codes "args") (member call (codes "arguments")) end))))

-- The tool calls among the blocks of a content.
unfoldable pub tool_calls : Items → List Value
tool_calls nil = []
tool_calls (cons block rest) =
    let calls = tool_calls rest in
    if is_object block && has_type block (codes "toolCall") then block ∷ calls else calls

abbrev pub content_calls : Option Value → List Value
content_calls (some (arr items)) = tool_calls items
content_calls _ = []

-- The calls of an assistant's message.
abbrev pub calls_of : Value → List Value
calls_of m =
    if has_role m (codes "assistant") then content_calls (member m (codes "content")) else []

unfoldable pub message_frames : Value → List Value
unfolding tool_calls
message_frames m =
    if has_role m (codes "system")
    then []
    else if has_role m (codes "toolResult")
    then tool_end_frame m ∷ []
    else message_frame m ∷ map tool_start_frame (calls_of m)

-- The message of an entry, if it is an entry of that type.
abbrev pub entry_message : Value → Option Value
entry_message entry =
    if is_object entry && has_type entry (codes "message")
    then option_else (member entry (codes "message")) none
        (λ m. if is_object m then some m else none)
    else none

unfoldable pub entries_to_envelopes : List Value → List (Option Value)
unfolding message_frames
entries_to_envelopes [] = []
entries_to_envelopes (entry ∷ rest) =
    option_else (entry_message entry) [] (λ m. map some (message_frames m))
    ++ entries_to_envelopes rest
