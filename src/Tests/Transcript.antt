-- ===== src/Tests/Transcript.antt =====
-- Transcripts, stored and live, and the theorems about the mirror applied to it.
use un_bien.Prelude.{
  ◌≡◌, refl, codes, some, none, [], ◌∷◌, Text, ℕ, decimal, text_eq, Option, List, false,
}
use un_bien.Json.{
  Value, str, arr, obj, nil, cons, field, end, Fields, is_object, has_type, is_true, member,
  as_text,
}
use un_bien.Prelude.Dict
use un_bien.Transcript.{TranscriptItem, tool, empty_transcript, reduce, or_default}
use un_bien.Transcript.Results.{settled_rows, reduce-settled_rows}
use un_bien.Transcript.History.{calls_of, tool_calls, entries_to_envelopes}
use un_bien.Transcript.Rows.{bare_rows}
use un_bien.Transcript.Replay.{history_rows, reduce-entries_to_envelopes}
use un_bien.Mirror.{
  EntryRecord, PortEntry, TranscriptMirror, empty_mirror, ingest, page, entry_id_of, wire_id, stub,
}
use un_bien.Mirror.Paging.{IsChain, ingest-IsChain, ingest_twice, page_since}
use un_bien.Mirror.WireIds.{entry_id_of-wire_id}

abbrev iso : ℕ → Text
iso n = decimal n

abbrev said : Text → Value
said text = obj (field (codes "role") (str (codes "user")) (field (codes "content") (str text) end))

-- One entry with two messages, and one with none.
abbrev records : List EntryRecord
records =
    record {
      id = 4;
      kind = codes "pi.user";
      model = said (codes "hi") ∷ said (codes "you") ∷ [];
      head = none;
      payload = none;
    }
    ∷ record { id = 7; kind = codes "pi.system"; model = []; head = none; payload = none }
    ∷ []

ingest-IsChain_example : IsChain none (ingest iso iso empty_mirror records).0.wire
ingest-IsChain_example = ingest-IsChain iso iso empty_mirror records tt

ingest_twice_example :
    ingest iso iso (ingest iso iso empty_mirror records).0 records
    ≡ ((ingest iso iso empty_mirror records).0, [])
ingest_twice_example = ingest_twice iso iso empty_mirror records

abbrev entry : Text → Option Text → PortEntry
entry id parent = record {
  entry = record { id = id; timestamp = codes "4"; body = stub (codes "pi.system") };
  parent_id = parent;
}

abbrev held : TranscriptMirror
held = record {
  wire =
      entry (codes "4") none
      ∷ entry (codes "4.1") (some (codes "4"))
      ∷ entry (codes "7") (some (codes "4.1"))
      ∷ [];
  newest = some 7;
}

apart : text_eq (codes "4") (codes "4.1") ≡ false
unfolding text_eq
apart = refl

page_since_example :
    page held (some (codes "4.1"))
    ≡ some (entry (codes "7") (some (codes "4.1")) ∷ [], some (codes "7"))
page_since_example =
    page_since held (entry (codes "4") none ∷ []) (entry (codes "7") (some (codes "4.1")) ∷ [])
      (entry (codes "4.1") (some (codes "4"))) refl (apart, tt)

entry_id_of-wire_id_example : entry_id_of (wire_id 12 1) ≡ some 12
entry_id_of-wire_id_example = entry_id_of-wire_id 12 1

abbrev string_of : Option Value → Text
string_of v = codes "?"

abbrev said_by : Text → Value → Value
said_by role content = obj (
    field (codes "type") (str (codes "message")) (
      field (codes "message")
        (obj (field (codes "role") (str role) (field (codes "content") content end))) end))

-- A question, and an answer with one tool call.
abbrev history : List Value
history =
    said_by (codes "user") (str (codes "hi"))
    ∷ said_by (codes "assistant") (
        arr (
          cons
            (obj (
              field (codes "type") (str (codes "toolCall")) (
                field (codes "id") (str (codes "t1"))
                  (field (codes "name") (str (codes "read")) end))))
            nil))
    ∷ []

-- Of the blocks of an answer, only those of the type "toolCall" are calls.
calls_of_run :
    calls_of (
      obj (
        field (codes "role") (str (codes "assistant")) (
          field
            (codes "content")
            (arr (
              cons
                (obj (field (codes "type") (str (codes "text")) end))
                (cons (obj (field (codes "type") (str (codes "toolCall")) end)) nil)))
            end)))
    ≡ obj (field (codes "type") (str (codes "toolCall")) end) ∷ []
unfolding text_eq as_text member tool_calls is_object has_type
calls_of_run = refl

reduce-entries_to_envelopes_example :
    bare_rows (reduce string_of empty_transcript (entries_to_envelopes history)).items
    ≡ history_rows string_of history
reduce-entries_to_envelopes_example = reduce-entries_to_envelopes string_of history

abbrev tool_frame : Text → Text → Fields → Option Value
tool_frame kind id more =
    some (obj (field (codes "type") (str kind) (field (codes "toolCallId") (str id) more)))

abbrev start_of : Text → Option Value
start_of id = tool_frame (codes "tool_execution_start") id (field (codes "toolName") (str id) end)

abbrev end_of : Text → Text → Option Value
end_of id content =
    tool_frame (codes "tool_execution_end") id
      (field (codes "result") (obj (field (codes "content") (str content) end)) end)

-- Two tools whose results come in the other order, and a second row for the first.
abbrev interleaved : List (Option Value)
interleaved =
    start_of (codes "a")
    ∷ start_of (codes "b")
    ∷ none
    ∷ end_of (codes "b") (codes "1")
    ∷ end_of (codes "a") (codes "2")
    ∷ start_of (codes "a")
    ∷ end_of (codes "a") (codes "3")
    ∷ []

abbrev row : Text → Text → TranscriptItem
row id content = tool (record {
  tool_call_id = id;
  tool_name = id;
  args = none;
  result = some (record { content = str content; details = none; is_error = false });
})

reduce_run :
    (reduce string_of empty_transcript interleaved).items
    ≡ row (codes "a") (codes "2") ∷ row (codes "b") (codes "1") ∷ row (codes "a") (codes "3") ∷ []
unfolding reduce Dict.get Dict.set text_eq or_default is_true
reduce_run = refl

reduce-settled_rows_example :
    (reduce string_of empty_transcript interleaved).items ≡ settled_rows string_of interleaved
reduce-settled_rows_example = reduce-settled_rows string_of interleaved

settled_rows_run :
    settled_rows string_of interleaved
    ≡ row (codes "a") (codes "2") ∷ row (codes "b") (codes "1") ∷ row (codes "a") (codes "3") ∷ []
unfolding is_object has_type member as_text text_eq or_default is_true
settled_rows_run = refl
