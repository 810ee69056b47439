-- ===== src/Transcript/Rows.antt =====
-- Which rows a transcript has, the results of tools aside.
use un_bien.Prelude.{
  ◌≡◌, refl, sym, ap, ◌∙◌, ℕ, zero, suc, Bool, false, ◌&&◌, ◌||◌, any, text_eq, text_eq_comm,
  Option-cases, inl, inr, arith, Option, none, some, List, [], ◌∷◌, ◌++◌, map, append-nil,
  append_assoc, Text, codes, if◌then◌else◌, if_both, option_else, option_elim,
}
use un_bien.Prelude.Dict
use un_bien.Json.{Value, member, has_type, is_object, as_text}
use un_bien.Transcript.{
  TranscriptItem, message, tool, notice, ToolResult, Transcript, set_result, update_at,
  on_message_end, on_tool_start, on_tool_end, on_ui_request, reduce_frame, reduce, is_falsy,
  has_role, card_of, is_actionable, notice_of, result_of, text_from, level_of,
}

-- A row without the result of its tool.
abbrev pub bare : TranscriptItem → TranscriptItem
bare (message m) = message m
bare (tool card) = tool (record card { result = none })
bare (notice level text) = notice level text

abbrev pub bare_rows : List TranscriptItem → List TranscriptItem
bare_rows is = map bare is

-- The rows that a frame adds, by what the frame says alone.
abbrev pub message_rows : Value → List TranscriptItem
message_rows rpc =
    option_else (member rpc (codes "message")) []
      λ m. if is_falsy m || has_role m (codes "toolResult") then [] else message m ∷ []

-- A warning or an error that is a notification.
abbrev pub alarms : (Option Value → Text) → Value → Bool
alarms string_of rpc =
    option_else (as_text (member rpc (codes "method"))) false (λ m. text_eq (codes "notify") m)
    && any (text_eq (level_of string_of rpc)) (codes "warning" ∷ codes "error" ∷ [])

abbrev pub frame_rows : (Option Value → Text) → Value → List TranscriptItem
frame_rows string_of rpc =
    if has_type rpc (codes "message_end")
    then message_rows rpc
    else if has_type rpc (codes "tool_execution_start")
    then tool (card_of string_of rpc) ∷ []
    else if has_type rpc (codes "tool_execution_end")
    then []
    else if has_type rpc (codes "extension_ui_request")
    then (if alarms string_of rpc then notice_of string_of rpc ∷ [] else [])
    else []

abbrev pub stream_rows : (Option Value → Text) → List (Option Value) → List TranscriptItem
stream_rows string_of [] = []
stream_rows string_of (none ∷ rest) = stream_rows string_of rest
stream_rows string_of (some rpc ∷ rest) =
    (if is_object rpc then frame_rows string_of rpc else []) ++ stream_rows string_of rest

bare-append : (is js : List TranscriptItem) → bare_rows (is ++ js) ≡ bare_rows is ++ bare_rows js
bare-append [] js = refl
bare-append (i ∷ is) js = ap (λ x. bare i ∷ x) (bare-append is js)

bare-set_result : (r : ToolResult) (i : TranscriptItem) → bare (set_result r i) ≡ bare i
bare-set_result r (message m) = refl
bare-set_result r (tool card) = refl
bare-set_result r (notice level text) = refl

bare-update_at :
    (n : ℕ) (r : ToolResult) (is : List TranscriptItem)
    → bare_rows (update_at n r is) ≡ bare_rows is
bare-update_at n r [] = refl
bare-update_at zero r (i ∷ is) = ap (λ x. x ∷ bare_rows is) (bare-set_result r i)
bare-update_at (suc n) r (i ∷ is) = ap (λ x. bare i ∷ x) (bare-update_at n r is)

-- What relates the branches of two reads of the same relates the two.
pub option_both {ℓ κ ι} :
    {A : Type ℓ} {B : Type κ} (P : A → B → Type ι) (o : Option Value) {x : A} {y : B}
    {f : Value → A} {g : Value → B}
    → P x y
    → ((v : Value) → P (f v) (g v))
    → P (option_else o x f) (option_else o y g)
option_both P none h k = h
option_both P (some v) h k = k v

module _ (string_of : Option Value → Text) where
  -- The frame adds the rows to the transcript.
  abbrev AddsRows : Transcript → Transcript → List TranscriptItem → Type 0
  AddsRows t t' rows = bare_rows t'.items ≡ bare_rows t.items ++ rows

  nothing : (t : Transcript) → AddsRows t t []
  nothing t = sym (append-nil (bare_rows t.items))

  on_message_end-AddsRows :
      (t : Transcript) (rpc : Value) → AddsRows t (on_message_end t rpc) (message_rows rpc)
  unfolding on_message_end
  on_message_end-AddsRows t rpc =
      option_both (AddsRows t) (member rpc (codes "message")) (nothing t) λ m.
        if_both (AddsRows t) (is_falsy m || has_role m (codes "toolResult")) (λ _. nothing t)
          (λ _. bare-append t.items (message m ∷ []))

  on_tool_start-AddsRows :
      (t : Transcript) (rpc : Value)
      → AddsRows t (on_tool_start string_of t rpc) (tool (card_of string_of rpc) ∷ [])
  unfolding on_tool_start
  on_tool_start-AddsRows t rpc = bare-append t.items (tool (card_of string_of rpc) ∷ [])

  on_tool_end-AddsRows :
      (t : Transcript) (rpc : Value) → AddsRows t (on_tool_end string_of t rpc) []
  unfolding on_tool_end
  on_tool_end-AddsRows t rpc =
      option_elim (λ (t' : Transcript). AddsRows t t' [])
        (Dict.get t.tools_by_id (text_from string_of (member rpc (codes "toolCallId"))))
        (λ _. nothing t) (λ n _. bare-update_at n (result_of rpc) t.items ∙ nothing t)

  pub alarms-is_actionable : (rpc : Value) → alarms string_of rpc ≡ is_actionable string_of rpc
  alarms-is_actionable rpc = elim (Option-cases (as_text (member rpc (codes "method")))) [
    | inl e ↦ rw e refl
    | inr e ↦ rw (e.1, text_eq_comm (codes "notify") e.0) (ground arith)
  ]

  on_ui_request-AddsRows :
      (t : Transcript) (rpc : Value)
      → AddsRows t
          (on_ui_request string_of t rpc)
          (if alarms string_of rpc then notice_of string_of rpc ∷ [] else [])
  unfolding on_ui_request
  on_ui_request-AddsRows t rpc = rw (alarms-is_actionable rpc) (
      if_both (AddsRows t) (is_actionable string_of rpc)
        (λ _. bare-append t.items (notice_of string_of rpc ∷ [])) (λ _. nothing t))

  reduce_frame-AddsRows :
      (t : Transcript) (rpc : Value)
      → AddsRows t (reduce_frame string_of t rpc) (frame_rows string_of rpc)
  unfolding reduce_frame
  reduce_frame-AddsRows t rpc =
      if_both (AddsRows t) (has_type rpc (codes "message_end")) (λ _. on_message_end-AddsRows t rpc)
        (λ _.
          if_both (AddsRows t) (has_type rpc (codes "tool_execution_start"))
            (λ _. on_tool_start-AddsRows t rpc)
            (λ _.
              if_both (AddsRows t) (has_type rpc (codes "tool_execution_end"))
                (λ _. on_tool_end-AddsRows t rpc)
                (λ _.
                  if_both (AddsRows t) (has_type rpc (codes "extension_ui_request"))
                    (λ _. on_ui_request-AddsRows t rpc) (λ _. nothing t))))

  -- The rows of a transcript and their order are those that its frames say, one by one, the results of tools
  -- aside, which neither add a row nor take one away.
  pub reduce-bare_rows :
      (envelopes : List (Option Value)) (t : Transcript)
      → bare_rows (reduce string_of t envelopes).items
        ≡ bare_rows t.items ++ stream_rows string_of envelopes
  unfolding reduce
  reduce-bare_rows [] t = nothing t
  reduce-bare_rows (none ∷ rest) t = reduce-bare_rows rest t
  reduce-bare_rows (some rpc ∷ rest) t =
      let t' = if is_object rpc then reduce_frame string_of t rpc else t in
      reduce-bare_rows rest t'
      ∙ ap (λ rows. rows ++ stream_rows string_of rest)
          (if_both (AddsRows t) (is_object rpc) (λ _. reduce_frame-AddsRows t rpc) (λ _. nothing t))
      ∙ append_assoc (bare_rows t.items) (if is_object rpc then frame_rows string_of rpc else [])
          (stream_rows string_of rest)
