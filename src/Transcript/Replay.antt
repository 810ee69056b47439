-- ===== src/Transcript/Replay.antt =====
-- A stored history, replayed, has the rows that its messages say.
use un_bien.Prelude.{
  ◌≡◌, refl, sym, ap, subst, ◌∙◌, true, false, false≢true, ◌&&◌, Option, none, some, List, [], ◌∷◌,
  ◌++◌, map, append_assoc, Text, text_eq, codes, if◌then◌else◌, if_elim, if_both, option_else,
  option_elim,
}
use un_bien.Json.{Value, bool, null, num, str, arr, obj, member, has_type, is_object, as_text}
use un_bien.Transcript.{
  TranscriptItem, message, tool, empty_transcript, has_role, card_of, is_falsy, reduce,
}
use un_bien.Transcript.History.{
  message_frame, tool_end_frame, tool_start_frame, calls_of, message_frames, entry_message,
  entries_to_envelopes,
}
use un_bien.Transcript.Rows.{bare_rows, frame_rows, stream_rows, reduce-bare_rows}

-- The rows of a stored message: none of the system's, none of a tool's result, and else the message with
-- a card for each of its calls after it.
abbrev pub rows_of_message : (Option Value → Text) → Value → List TranscriptItem
rows_of_message string_of m =
    if has_role m (codes "system")
    then []
    else if has_role m (codes "toolResult")
    then []
    else message m ∷ map (λ call. tool (card_of string_of (tool_start_frame call))) (calls_of m)

abbrev pub history_rows : (Option Value → Text) → List Value → List TranscriptItem
history_rows string_of [] = []
history_rows string_of (entry ∷ rest) =
    option_else (entry_message entry) [] (rows_of_message string_of) ++ history_rows string_of rest

module _ (string_of : Option Value → Text) where
  stream-append :
      (es fs : List (Option Value))
      → stream_rows string_of (es ++ fs) ≡ stream_rows string_of es ++ stream_rows string_of fs
  stream-append [] fs = refl
  stream-append (none ∷ es) fs = stream-append es fs
  stream-append (some rpc ∷ es) fs =
      ap (λ rows. (if is_object rpc then frame_rows string_of rpc else []) ++ rows)
        (stream-append es fs)
      ∙ sym (
          append_assoc (if is_object rpc then frame_rows string_of rpc else [])
            (stream_rows string_of es) (stream_rows string_of fs))

  starts-rows :
      (calls : List Value)
      → stream_rows string_of (map some (map tool_start_frame calls))
        ≡ map (λ call. tool (card_of string_of (tool_start_frame call))) calls
  unfolding is_object has_type text_eq
  starts-rows [] = refl
  starts-rows (call ∷ calls) =
      ap (λ rows. tool (card_of string_of (tool_start_frame call)) ∷ rows) (starts-rows calls)

  is_falsy-object : (m : Value) → is_object m ≡ true → is_falsy m ≡ false
  unfolding is_object is_falsy
  is_falsy-object (arr xs) h = refl
  is_falsy-object (obj fs) h = refl
  is_falsy-object null h = absurd (false≢true h)
  is_falsy-object (bool b) h = absurd (false≢true h)
  is_falsy-object (num n) h = absurd (false≢true h)
  is_falsy-object (str s) h = absurd (false≢true h)

  message_frame-rows :
      (m : Value)
      → is_object m ≡ true
      → has_role m (codes "toolResult") ≡ false
      → frame_rows string_of (message_frame m) ≡ message m ∷ []
  unfolding has_type member text_eq as_text
  message_frame-rows m h k = rw (is_falsy-object m h) (
      if_elim (λ rows. rows ≡ message m ∷ []) (has_role m (codes "toolResult"))
        (λ e. absurd (false≢true (sym k ∙ e))) (λ _. refl))

  end_frame-rows : (m : Value) → stream_rows string_of (some (tool_end_frame m) ∷ []) ≡ []
  unfolding is_object has_type member text_eq as_text
  end_frame-rows m = refl

  abbrev Shows : List Value → List TranscriptItem → Type 0
  Shows frames rows = stream_rows string_of (map some frames) ≡ rows

  message_frames-Shows :
      (m : Value) → is_object m ≡ true → Shows (message_frames m) (rows_of_message string_of m)
  unfolding message_frames is_object
  message_frames-Shows m h =
      if_both Shows (has_role m (codes "system")) (λ _. refl)
        λ _.
          if_both Shows (has_role m (codes "toolResult")) (λ _. end_frame-rows m)
            λ k.
              ap
                (λ rows.
                  rows ++ stream_rows string_of (map some (map tool_start_frame (calls_of m))))
                (message_frame-rows m h k)
              ∙ ap (λ rows. message m ∷ rows) (starts-rows (calls_of m))

  abbrev ObjectIf : Option Value → Type 0
  ObjectIf none = Unit
  ObjectIf (some m) = is_object m ≡ true

  entry_message-object : (entry m : Value) → entry_message entry ≡ some m → is_object m ≡ true
  entry_message-object entry m e = subst ObjectIf e (
      if_elim ObjectIf (is_object entry && has_type entry (codes "message"))
        (λ _.
          option_elim ObjectIf (member entry (codes "message")) (λ _. tt)
            λ v _. if_elim ObjectIf (is_object v) (λ k. k) (λ _. tt))
        (λ _. tt))

  entry-rows :
      (o : Option Value)
      → ((m : Value) → o ≡ some m → is_object m ≡ true)
      → stream_rows string_of (option_else o [] (λ m. map some (message_frames m)))
        ≡ option_else o [] (rows_of_message string_of)
  entry-rows none h = refl
  entry-rows (some m) h = message_frames-Shows m (h m refl)

  envelopes-rows :
      (entries : List Value)
      → stream_rows string_of (entries_to_envelopes entries) ≡ history_rows string_of entries
  unfolding entries_to_envelopes
  envelopes-rows [] = refl
  envelopes-rows (entry ∷ rest) =
      stream-append (option_else (entry_message entry) [] (λ m. map some (message_frames m)))
        (entries_to_envelopes rest)
      ∙ ap (λ rows. rows ++ stream_rows string_of (entries_to_envelopes rest))
          (entry-rows (entry_message entry) (entry_message-object entry))
      ∙ ap (λ rows. option_else (entry_message entry) [] (rows_of_message string_of) ++ rows)
          (envelopes-rows rest)

  -- A stored history, made a stream and reduced, has the rows of its messages in order, the results
  -- of tools aside: each message but those of the system and of tool results, each of an assistant
  -- with a card for each of its tool calls right after it, and nothing of other entries.
  pub reduce-entries_to_envelopes :
      (entries : List Value)
      → bare_rows (reduce string_of empty_transcript (entries_to_envelopes entries)).items
        ≡ history_rows string_of entries
  reduce-entries_to_envelopes entries =
      reduce-bare_rows string_of (entries_to_envelopes entries) empty_transcript
      ∙ envelopes-rows entries
