-- ===== src/Transcript/Results.antt =====
-- Which rows a transcript has, and with which results.
use un_bien.Prelude.{
  ◌≡◌, refl, sym, ap, ◌∙◌, true, false, ◌&&◌, ◌||◌, Option, none, some, List, [], ◌∷◌, ◌++◌, map,
  append-nil, append_assoc, Text, text_eq, text_eq_iff, codes, if◌then◌else◌, if_both, option_else,
  arith,
}
use un_bien.Prelude.Dict
use un_bien.Json.{Value, member, has_type, is_object, as_text}
use un_bien.Transcript.{
  TranscriptItem, message, ToolResult, Transcript, empty_transcript, on_message_end, on_tool_start,
  on_tool_end, on_ui_request, reduce_frame, reduce, is_falsy, has_role, card_of, is_actionable,
  notice_of, result_of, text_from,
}
use un_bien.Transcript.Rows.{frame_rows, message_rows, alarms, alarms-is_actionable, option_both}
use un_bien.Transcript.Steps.{Steps, idle, push, push_card, put_result}
use un_bien.Transcript.Settling.{fulfilled, settle, settle_nothing, IsLinked, now_or_later}

module _ (string_of : Option Value → Text) where
  abbrev pub tool_of : Value → Text
  tool_of rpc = text_from string_of (member rpc (codes "toolCallId"))

  -- What a frame about a tool makes of the result that the frames after it have for the tool.
  abbrev pub result_with : Value → Option ToolResult → Option ToolResult
  result_with rpc later =
      if has_type rpc (codes "tool_execution_start")
      then none
      else if has_type rpc (codes "tool_execution_end")
      then some (option_else later (result_of rpc) (λ r. r))
      else later

  -- The result that a stream has for a tool: the last one before the tool's id is used again.
  abbrev pub result_in : List (Option Value) → Text → Option ToolResult
  result_in [] id = none
  result_in (none ∷ rest) id = result_in rest id
  result_in (some rpc ∷ rest) id =
      if is_object rpc && text_eq (tool_of rpc) id
      then result_with rpc (result_in rest id)
      else result_in rest id

  -- The rows that a stream says, each tool's with the result that the stream has for it from there on.
  abbrev pub settled_rows : List (Option Value) → List TranscriptItem
  settled_rows [] = []
  settled_rows (none ∷ rest) = settled_rows rest
  settled_rows (some rpc ∷ rest) =
      map (fulfilled (result_in rest)) (if is_object rpc then frame_rows string_of rpc else [])
      ++ settled_rows rest

  kinds_apart :
      (rpc : Value) (kind other : Text)
      → text_eq kind other ≡ false
      → has_type rpc kind ≡ true
      → has_type rpc other ≡ false
  unfolding has_type
  kinds_apart rpc kind other apart h = told (as_text (member rpc (codes "type"))) h
    where
      told :
          (o : Option Text)
          → elim o [ none ↦ false | some s ↦ text_eq s kind ] ≡ true
          → elim o [ none ↦ false | some s ↦ text_eq s other ] ≡ false
      told none e = absurd (cc)
      told (some s) e =
          ground (arith, text_eq_iff s kind, text_eq_iff s other, text_eq_iff kind other)

  module _ (t : Transcript) (linked : IsLinked t) (rpc : Value) (rest : List (Option Value)) where
    abbrev later : Text → Option ToolResult
    later = result_in (some rpc ∷ rest)

    abbrev StepsTo : Transcript → List TranscriptItem → Type 0
    StepsTo t' rows = Steps later (result_in rest) t t' rows

    -- A frame that neither starts nor ends a tool says no result.
    silent :
        has_type rpc (codes "tool_execution_start") ≡ false
        → has_type rpc (codes "tool_execution_end") ≡ false
        → (id : Text) → later id ≡ result_in rest id
    silent h k id = ground arith

    starts :
        is_object rpc ≡ true
        → has_type rpc (codes "tool_execution_start") ≡ true
        → (id : Text) → later id ≡ (if text_eq (tool_of rpc) id then none else result_in rest id)
    starts o h id = ground arith

    ends :
        is_object rpc ≡ true
        → has_type rpc (codes "tool_execution_start") ≡ false
        → has_type rpc (codes "tool_execution_end") ≡ true
        → (id : Text) → later id ≡ now_or_later (result_in rest) (tool_of rpc) (result_of rpc) id
    ends o h k id = rw (o, h, k) refl

    on_message_end-StepsTo :
        ((id : Text) → later id ≡ result_in rest id)
        → StepsTo (on_message_end t rpc) (message_rows rpc)
    unfolding on_message_end
    on_message_end-StepsTo h =
        option_both StepsTo (member rpc (codes "message")) (idle t linked later (result_in rest) h)
          λ m.
            if_both StepsTo (is_falsy m || has_role m (codes "toolResult"))
              (λ _. idle t linked later (result_in rest) h)
              (λ _. push t linked later (result_in rest) (message m) refl h)

    on_ui_request-StepsTo :
        ((id : Text) → later id ≡ result_in rest id)
        → StepsTo
            (on_ui_request string_of t rpc)
            (if alarms string_of rpc then notice_of string_of rpc ∷ [] else [])
    unfolding on_ui_request
    on_ui_request-StepsTo h = rw (alarms-is_actionable string_of rpc) (
        if_both StepsTo (is_actionable string_of rpc)
          (λ _. push t linked later (result_in rest) (notice_of string_of rpc) refl h)
          (λ _. idle t linked later (result_in rest) h))

    reduce_frame-StepsTo :
        is_object rpc ≡ true → StepsTo (reduce_frame string_of t rpc) (frame_rows string_of rpc)
    unfolding reduce_frame on_tool_start on_tool_end text_eq
    reduce_frame-StepsTo o =
        if_both StepsTo (has_type rpc (codes "message_end"))
          (λ e. on_message_end-StepsTo (
            silent (kinds_apart rpc (codes "message_end") (codes "tool_execution_start") refl e)
              (kinds_apart rpc (codes "message_end") (codes "tool_execution_end") refl e)))
          λ _.
            if_both StepsTo (has_type rpc (codes "tool_execution_start"))
              (λ e. push_card t linked later (result_in rest) (card_of string_of rpc) (starts o e))
              λ no_start.
                if_both StepsTo (has_type rpc (codes "tool_execution_end"))
                  (λ e.
                    put_result t linked later (result_in rest) (tool_of rpc) (result_of rpc)
                      (ends o no_start e))
                  λ no_end.
                    if_both StepsTo (has_type rpc (codes "extension_ui_request"))
                      (λ _. on_ui_request-StepsTo (silent no_start no_end))
                      (λ _. idle t linked later (result_in rest) (silent no_start no_end))

    frame-StepsTo :
        StepsTo
          (if is_object rpc then reduce_frame string_of t rpc else t)
          (if is_object rpc then frame_rows string_of rpc else [])
    frame-StepsTo =
        if_both StepsTo (is_object rpc) reduce_frame-StepsTo
          (λ no. idle t linked later (result_in rest) (λ id. ground arith))

  reduce-settle :
      (envelopes : List (Option Value)) (t : Transcript)
      → IsLinked t
      → (reduce string_of t envelopes).items
        ≡ settle (Dict.get t.tools_by_id) (result_in envelopes) 0 t.items ++ settled_rows envelopes
  unfolding reduce
  reduce-settle [] t linked = sym (
      append-nil (settle (Dict.get t.tools_by_id) (result_in []) 0 t.items)
      ∙ settle_nothing (Dict.get t.tools_by_id) 0 t.items)
  reduce-settle (none ∷ rest) t linked = reduce-settle rest t linked
  reduce-settle (some rpc ∷ rest) t linked =
      let t' = if is_object rpc then reduce_frame string_of t rpc else t in
      let rows = if is_object rpc then frame_rows string_of rpc else [] in
      let step = frame-StepsTo t linked rpc rest in
      reduce-settle rest t' step.0
      ∙ ap (λ x. x ++ settled_rows rest) step.1
      ∙ append_assoc (settle (Dict.get t.tools_by_id) (result_in (some rpc ∷ rest)) 0 t.items)
          (map (fulfilled (result_in rest)) rows) (settled_rows rest)

  -- The rows of a stream are those that its frames say, one by one, and the row of a tool has the
  -- last result that the stream has for the tool's id after the row and before a frame that uses
  -- the id again for another row, or none if there is no such result: so a result changes the
  -- row of its tool and no other.
  pub reduce-settled_rows :
      (envelopes : List (Option Value))
      → (reduce string_of empty_transcript envelopes).items ≡ settled_rows envelopes
  reduce-settled_rows envelopes = reduce-settle envelopes empty_transcript no_links
    where
      no_links : IsLinked empty_transcript
      no_links id n h = unfold Dict.get in cc
