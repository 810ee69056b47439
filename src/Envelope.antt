-- ===== src/Envelope.antt =====
-- extension/src/session/envelope.ts: the envelope of the local agent network, its validation, and
-- what `JSON.stringify` makes of it. A line is the value that `JSON.parse` makes of it, or nothing
-- where that throws.
pub mod RoundTrip
use un_bien.Prelude.{
  ◌≡◌, refl, ℕ, Bool, true, false, ◌&&◌, ◌||◌, Option, none, some, List, [], ◌∷◌, Text, text_eq,
  if◌then◌else◌, codes, leb, ◌==◌, option_else,
}
use un_bien.Json.{
  Value, Items, Fields, null, bool, num, str, arr, obj, nil, cons, end, field, member, as_text,
  is_object, items_of_texts,
}

-- `to: string | string[]`
pub data Recipients : Type 0 where
  one : Text → Recipients
  many : List Text → Recipients

-- `body: unknown`, where `none` is `undefined`.
pub record Envelope : Type 0 where
  pub from : Text
  pub to : Recipients
  pub id : Text
  pub re : Option Text
  pub body : Option Value

pub data EnvelopeError : Type 0 where
  not_json not_object bad_from bad_to empty_to bad_entry bad_id bad_re no_body : EnvelopeError

pub data Result {ℓ} (A : Type ℓ) : Type ℓ where
  ok : A → Result A
  err : EnvelopeError → Result A

infixl 5 ◌>>=◌
abbrev pub ◌>>=◌ {ℓ κ} : {A : Type ℓ} {B : Type κ} → Result A → (A → Result B) → Result B
ok a >>= f = f a
err e >>= f = err e

abbrev pub or_fail {ℓ} : {A : Type ℓ} → Option A → EnvelopeError → Result A
or_fail none e = err e
or_fail (some a) e = ok a

unfoldable pub is_hex : ℕ → Bool
is_hex c = leb b'0' c && leb c b'9' || leb b'a' c && leb c b'f' || leb b'A' c && leb c b'F'

-- A pattern `[0-9a-f]{n₁}-[0-9a-f]{n₂}-…` is the list of the counts.
unfoldable pub hex_groups : List ℕ → Text → Bool
unfolding is_hex
hex_groups [] s = false
hex_groups (ℕ.zero ∷ []) [] = true
hex_groups (ℕ.zero ∷ []) (c ∷ s) = false
hex_groups (ℕ.zero ∷ n ∷ ns) [] = false
hex_groups (ℕ.zero ∷ n ∷ ns) (c ∷ s) = c == b'-' && hex_groups (n ∷ ns) s
hex_groups (ℕ.suc n ∷ ns) [] = false
hex_groups (ℕ.suc n ∷ ns) (c ∷ s) = is_hex c && hex_groups (n ∷ ns) s

unfoldable pub is_uuid : Text → Bool
unfolding hex_groups
is_uuid s = hex_groups (8 ∷ 4 ∷ 4 ∷ 4 ∷ 12 ∷ []) s

abbrev pub non_empty : Text → Bool
non_empty [] = false
non_empty (c ∷ s) = true

unfoldable pub parse_from : Value → Result Text
unfolding member as_text
parse_from o = do
  from ← or_fail (as_text (member o (codes "from"))) bad_from
  if non_empty from then ok from else err bad_from

-- The entries of a `to` array, in order; the first that is no non-empty string is the error.
unfoldable pub parse_entries : Items → Result (List Text)
parse_entries nil = ok []
parse_entries (cons (str t) rest) = do
  ts ← parse_entries rest
  if non_empty t then ok (t ∷ ts) else err bad_entry
parse_entries (cons null rest) = err bad_entry
parse_entries (cons (bool b) rest) = err bad_entry
parse_entries (cons (num n) rest) = err bad_entry
parse_entries (cons (arr xs) rest) = err bad_entry
parse_entries (cons (obj fs) rest) = err bad_entry

unfoldable pub parse_to : Option Value → Result Recipients
unfolding parse_entries
parse_to (some (str s)) = if non_empty s then ok (one s) else err empty_to
parse_to (some (arr nil)) = err empty_to
parse_to (some (arr (cons x xs))) = do ts ← parse_entries (cons x xs); ok (many ts)
parse_to _ = err bad_to

unfoldable pub parse_id : Option Value → Result Text
unfolding is_uuid
parse_id (some (str s)) = if is_uuid s then ok s else err bad_id
parse_id _ = err bad_id

unfoldable pub parse_re : Option Value → Result (Option Text)
unfolding is_uuid
parse_re (some null) = ok none
parse_re (some (str s)) = if is_uuid s then ok (some s) else err bad_re
parse_re _ = err bad_re

-- The fields of an object, in the order in which they are checked.
unfoldable pub parse_object : Value → Result Envelope
unfolding parse_from parse_to parse_id parse_re member
parse_object o = do
  from ← parse_from o
  to ← parse_to (member o (codes "to"))
  id ← parse_id (member o (codes "id"))
  re ← parse_re (member o (codes "re"))
  body ← or_fail (member o (codes "body")) no_body
  ok (record { from = from; to = to; id = id; re = re; body = some body })

unfoldable pub parse : Option Value → Result Envelope
unfolding parse_object is_object
parse none = err not_json
parse (some o) = if is_object o then parse_object o else err not_object

unfoldable pub json_of_to : Recipients → Value
unfolding items_of_texts
json_of_to (one t) = str t
json_of_to (many ts) = arr (items_of_texts ts)

abbrev pub json_of_re : Option Text → Value
json_of_re none = null
json_of_re (some t) = str t

-- `JSON.stringify` leaves a field out whose value is `undefined`.
abbrev json_of_body : Option Value → Fields
json_of_body none = end
json_of_body (some v) = field (codes "body") v end

-- `serialize`, without the text: the value that a reader parses from the line.
unfoldable pub serialize : Envelope → Value
unfolding json_of_to
serialize env = obj (
    field (codes "from") (str env.from) (
      field (codes "to") (json_of_to env.to) (
        field (codes "id") (str env.id)
          (field (codes "re") (json_of_re env.re) (json_of_body env.body)))))

pub data TransportErrorReason : Type 0 where
  offline not_authorized bad_envelope unknown_peer : TransportErrorReason

-- An object, and no array, whose `type` is `transport_error`.
unfoldable pub has_transport_error_type : Value → Bool
unfolding member as_text
has_transport_error_type (obj fs) =
    option_else (as_text (member (obj fs) (codes "type"))) false
      (λ t. text_eq t (codes "transport_error"))
has_transport_error_type _ = false

unfoldable pub reason_of : Text → Option TransportErrorReason
reason_of t =
    if text_eq t (codes "offline")
    then some offline
    else if text_eq t (codes "not_authorized")
    then some not_authorized
    else if text_eq t (codes "bad_envelope")
    then some bad_envelope
    else none

unfoldable pub as_transport_error_body : Value → Option TransportErrorReason
unfolding has_transport_error_type reason_of
as_transport_error_body v =
    if has_transport_error_type v
    then option_else (as_text (member v (codes "reason"))) none reason_of
    else none
