-- ===== src/Mirror.antt =====
-- The view of a durable transcript that an app pages through, unbien-durable/src/mirror.ts. A model
-- message is the JSON value that it is. `iso` is what `new Date(ms).toISOString()` returns, and `seen`
-- the text that `firstSeen` keeps for an entry, which is fixed once it is asked for.
pub mod Paging
pub mod WireIds
use un_bien.Prelude.{
  ℕ, ◌+◌, ◌-◌, ◌*◌, Bool, true, false, ◌&&◌, not, Option, none, some, List, [], ◌∷◌, ◌++◌, map,
  Text, text_eq, codes, if◌then◌else◌, option_else, leb, length, take, drop, keep, all, decimal,
  text_starts_with,
}
use un_bien.Json.{Value, Items, str, num, arr, nil, cons, bool, member, as_text, has_type}

-- `model` is empty where the record has none, and `payload` is its `data`.
pub record EntryRecord : Type 0 where
  pub id : ℕ
  pub kind : Text
  pub model : List Value
  pub head : Option ℕ
  pub payload : Option Value

-- The fields of a wire entry but its id and time, by its `type`.
pub data WireBody : Type 0 where
  compaction : Text → Text → WireBody
  custom_message : Text → Text → Bool → Option Value → WireBody
  stub : Text → WireBody
  message : Value → WireBody

pub record WireEntry : Type 0 where
  pub id : Text
  pub timestamp : Text
  pub body : WireBody

pub record PortEntry : Type 0 where
  pub entry : WireEntry
  pub parent_id : Option Text

abbrev pub is_digit : ℕ → Bool
is_digit c = leb b'0' c && leb c b'9'

-- The digits at the front of a text, and what follows them.
unfoldable pub span_digits : Text → Text × Text
span_digits [] = ([], [])
span_digits (c ∷ s) =
    let rest = span_digits s in if is_digit c then (c ∷ rest.0, rest.1) else ([], c ∷ s)

-- `Number(digits)`, after a number `n`.
unfoldable pub number_from : ℕ → Text → ℕ
number_from n [] = n
number_from n (c ∷ s) = number_from (n * 10 + (c - 48)) s

-- `(?:\.\d+)?$`
unfoldable pub is_part_suffix : Text → Bool
is_part_suffix [] = true
is_part_suffix (c ∷ []) = false
is_part_suffix (c ∷ d ∷ s) = leb c 46 && leb 46 c && all is_digit (d ∷ s)

abbrev pub numbered : Text × Text → Option ℕ
numbered ([], rest) = none
numbered (d ∷ ds, rest) = if is_part_suffix rest then some (number_from 0 (d ∷ ds)) else none

unfoldable pub entry_id_of : Text → Option ℕ
unfolding span_digits number_from is_part_suffix
entry_id_of wire_id = numbered (span_digits wire_id)

abbrev first_message : EntryRecord → Option Value
first_message r = elim r.model [ [] ↦ none | v ∷ vs ↦ some v ]

abbrev message_time : Option Value → Option ℕ
message_time (some (num n)) = some n
message_time _ = none

unfoldable pub timestamp_of : (ℕ → Text) → (ℕ → Text) → EntryRecord → Text
unfolding member
timestamp_of iso seen r =
    option_else
      (message_time (option_else (first_message r) none (λ m. member m (codes "timestamp"))))
      (seen r.id) iso

-- The texts of the text blocks of a content.
unfoldable pub block_texts : Items → List Text
unfolding has_type as_text member
block_texts nil = []
block_texts (cons block rest) =
    let texts = block_texts rest in
    option_else (as_text (member block (codes "text"))) texts
      λ t. if has_type block (codes "text") then t ∷ texts else texts

-- `.join("\n")`
unfoldable pub join_lines : List Text → Text
join_lines [] = []
join_lines (t ∷ []) = t
join_lines (t ∷ u ∷ ts) = t ++ (10 ∷ join_lines (u ∷ ts))

abbrev pub content_text : Option Value → Text
content_text (some (str s)) = s
content_text (some (arr items)) = join_lines (block_texts items)
content_text _ = []

unfoldable pub text_of : Option Value → Text
unfolding block_texts join_lines member
text_of m = content_text (option_else m none (λ v. member v (codes "content")))

abbrev pub summary_prefix : Text
summary_prefix =
    codes "The conversation history before this point was compacted into the following summary:"
    ++ (10 ∷ 10 ∷ codes "<summary>" ++ (10 ∷ []))

abbrev pub summary_suffix : Text
summary_suffix = 10 ∷ codes "</summary>"

-- `endsWith`
unfoldable pub text_ends_with : Text → Text → Bool
text_ends_with s suffix = text_eq (drop (length s - length suffix) s) suffix

unfoldable pub unwrap_summary : Text → Text
unfolding text_ends_with
unwrap_summary s =
    if text_starts_with s summary_prefix && text_ends_with s summary_suffix
    then take (length s - length summary_suffix - length summary_prefix)
        (drop (length summary_prefix) s)
    else s

-- `typeof m.role === "string" && m.role !== "system"`
unfoldable pub is_model_message : Value → Bool
unfolding member as_text
is_model_message m =
    option_else (as_text (member m (codes "role"))) false
      λ role. not (text_eq role (codes "system"))

abbrev is_false : Option Value → Bool
is_false (some (bool b)) = not b
is_false _ = false

abbrev text_or_empty : Option Value → Text
text_or_empty v = option_else (as_text v) [] (λ t. t)

-- The wire id of the `n`th message of an entry.
unfoldable pub wire_id : ℕ → ℕ → Text
wire_id id ℕ.zero = decimal id
wire_id id (ℕ.suc n) = decimal id ++ (46 ∷ decimal (ℕ.suc n))

unfoldable pub message_entries : ℕ → Text → ℕ → List Value → List WireEntry
unfolding wire_id
message_entries id timestamp n [] = []
message_entries id timestamp n (m ∷ ms) =
    record { id = wire_id id n; timestamp = timestamp; body = message m }
    ∷ message_entries id timestamp (n + 1) ms

-- The one body of an entry that is shown as one: a compaction, a reset, an app's entry, or a stub.
unfoldable pub compaction_body : EntryRecord → WireBody
unfolding text_of unwrap_summary
compaction_body r =
    compaction (unwrap_summary (text_of (first_message r)))
      (option_else r.head (decimal r.id) decimal)

unfoldable pub reset_content : Text → Text
reset_content [] = codes "Context reset"
reset_content (c ∷ s) = codes "Context reset. Handoff:" ++ (10 ∷ 10 ∷ c ∷ s)

unfoldable pub reset_body : EntryRecord → WireBody
unfolding text_of reset_content
reset_body r =
    custom_message (codes "un-bien:durable-reset") (reset_content (text_of (first_message r))) true
      none

unfoldable pub app_body : EntryRecord → WireBody
unfolding member as_text
app_body r =
    let field_of = λ (k : Text). option_else r.payload none (λ d. member d k) in
    custom_message (text_or_empty (field_of (codes "customType")))
      (text_or_empty (field_of (codes "content"))) (not (is_false (field_of (codes "display"))))
      (field_of (codes "details"))

abbrev single_entry : ℕ → Text → WireBody → List WireEntry
single_entry id timestamp body = record { id = decimal id; timestamp = timestamp; body = body } ∷ []

abbrev entries_or_stub : ℕ → Text → Text → List Value → List WireEntry
entries_or_stub id timestamp kind [] = single_entry id timestamp (stub kind)
entries_or_stub id timestamp kind (m ∷ ms) = message_entries id timestamp 0 (m ∷ ms)

unfoldable pub to_wire : (ℕ → Text) → (ℕ → Text) → EntryRecord → List WireEntry
unfolding timestamp_of compaction_body reset_body app_body message_entries is_model_message
to_wire iso seen r =
    let time = timestamp_of iso seen r in
    if text_eq r.kind (codes "pi.compaction")
    then single_entry r.id time (compaction_body r)
    else if text_eq r.kind (codes "pi.reset")
    then single_entry r.id time (reset_body r)
    else if text_eq r.kind (codes "un-bien.app")
    then single_entry r.id time (app_body r)
    else entries_or_stub r.id time r.kind (keep is_model_message r.model)

pub record TranscriptMirror : Type 0 where
  pub wire : List PortEntry
  pub newest : Option ℕ

abbrev pub empty_mirror : TranscriptMirror
empty_mirror = record { wire = []; newest = none }

-- `wire.at(-1)?.id ?? null`
unfoldable pub leaf_id : List PortEntry → Option Text
leaf_id [] = none
leaf_id (e ∷ []) = some e.entry.id
leaf_id (e ∷ f ∷ es) = leaf_id (f ∷ es)

unfoldable pub push_all : List PortEntry → List WireEntry → List PortEntry
unfolding leaf_id
push_all wire [] = wire
push_all wire (e ∷ es) = push_all (wire ++ (record { entry = e; parent_id = leaf_id wire } ∷ [])) es

-- `newest !== undefined && id <= newest`
abbrev pub is_held : Option ℕ → ℕ → Bool
is_held none id = false
is_held (some n) id = leb id n

unfoldable pub take_in : (ℕ → Text) → (ℕ → Text) → TranscriptMirror → EntryRecord → TranscriptMirror
unfolding push_all to_wire
take_in iso seen m r = record { wire = push_all m.wire (to_wire iso seen r); newest = some r.id }

unfoldable pub ingest :
    (ℕ → Text)
    → (ℕ → Text)
    → TranscriptMirror
    → List EntryRecord
    → TranscriptMirror × List EntryRecord
unfolding take_in
ingest iso seen m [] = (m, [])
ingest iso seen m (r ∷ rs) =
    let without = ingest iso seen m rs in
    let taken = ingest iso seen (take_in iso seen m r) rs in
    if is_held m.newest r.id then without else (taken.0, r ∷ taken.1)

-- What follows the first entry with the id.
unfoldable pub after_id : Text → List PortEntry → Option (List PortEntry)
after_id id [] = none
after_id id (e ∷ es) = let rest = after_id id es in if text_eq e.entry.id id then some es else rest

-- `none` is the error `Entry not found`.
unfoldable pub page : TranscriptMirror → Option Text → Option (List PortEntry × Option Text)
unfolding after_id leaf_id
page m none = some (m.wire, leaf_id m.wire)
page m (some since) = option_else (after_id since m.wire) none λ es. some (es, leaf_id m.wire)
