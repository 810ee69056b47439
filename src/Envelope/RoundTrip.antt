-- ===== src/Envelope/RoundTrip.antt =====
-- `parse` against `serialize`, and what `parse` accepts.
use un_bien.Prelude.{
  ◌≡◌, refl, subst, if_elim, Bool, true, false, Option, none, some, List, [], ◌∷◌, Text, text_eq,
  arith, All, Bool-cases, codes, if◌then◌else◌, inl, inr,
}
use un_bien.Json.{
  Value, null, bool, num, str, arr, obj, Items, nil, cons, member, as_text, is_object,
  items_of_texts,
}
use un_bien.Envelope.{
  Envelope, Recipients, one, many, Result, ok, err, non_empty, is_uuid, parse, parse_from, parse_to,
  parse_entries, parse_id, parse_re, parse_object, serialize, json_of_to, json_of_re, EnvelopeError,
  bad_from, bad_entry, bad_id, bad_re, empty_to, no_body, ◌>>=◌, or_fail,
}

abbrev pub IsRecipients : Recipients → Type 0
IsRecipients (one t) = non_empty t ≡ true
IsRecipients (many []) = ⊥
IsRecipients (many (t ∷ ts)) = (non_empty t ≡ true) × All (λ s. non_empty s ≡ true) ts

abbrev pub IsReply : Option Text → Type 0
IsReply none = Unit
IsReply (some t) = is_uuid t ≡ true

-- An envelope that may travel.
pub record IsValid (env : Envelope) : Type 0 where
  pub from : non_empty env.from ≡ true
  pub to : IsRecipients env.to
  pub id : is_uuid env.id ≡ true
  pub re : IsReply env.re
  pub body : (v : Value) × (env.body ≡ some v)

items-entries :
    (ts : List Text) → All (λ s. non_empty s ≡ true) ts → parse_entries (items_of_texts ts) ≡ ok ts
unfolding parse_entries items_of_texts
items-entries [] h = refl
items-entries (t ∷ ts) h = rw (items-entries ts h.1, h.0)

to-json : (to : Recipients) → IsRecipients to → parse_to (some (json_of_to to)) ≡ ok to
unfolding parse_to json_of_to items_of_texts
to-json (one t) h = rw h
to-json (many []) h = absurd h
to-json (many (t ∷ ts)) h = rw (items-entries (t ∷ ts) h)

re-json : (re : Option Text) → IsReply re → parse_re (some (json_of_re re)) ≡ ok re
unfolding parse_re
re-json none h = refl
re-json (some t) h = rw h

id-json : (id : Text) → is_uuid id ≡ true → parse_id (some (str id)) ≡ ok id
unfolding parse_id
id-json id h = rw h

-- What is sent is what is read: a valid envelope comes back from its own line unchanged.
pub parse-serialize : (env : Envelope) → IsValid env → parse (some (serialize env)) ≡ ok env
unfolding parse serialize parse_from text_eq
parse-serialize env h =
    ground (arith, to-json env.to h.to, re-json env.re h.re, id-json env.id h.id)

-- What holds of the value, if there is one.
abbrev pub Ensures {ℓ κ} : {A : Type ℓ} → (A → Type κ) → Result A → Type κ
Ensures P (ok a) = P a
Ensures P (err e) = Unit

Ensures-bind {ℓ κ ι} :
    {A : Type ℓ} {B : Type κ} (P : A → Type ι) (Q : B → Type ι) (m : Result A) (f : A → Result B)
    → Ensures P m
    → ((a : A) → P a → Ensures Q (f a))
    → Ensures Q (m >>= f)
Ensures-bind P Q (ok a) f p k = k a p
Ensures-bind P Q (err e) f p k = tt

if-ok {ℓ κ} :
    {A : Type ℓ} (P : A → Type κ) (b : Bool) (a : A) (e : EnvelopeError)
    → (b ≡ true → P a)
    → Ensures P (if b then ok a else err e)
if-ok P true a e p = p refl
if-ok P false a e p = tt

or_fail-Ensures {ℓ} :
    {A : Type ℓ} (o : Option A) (e : EnvelopeError) → Ensures (λ _. Unit {0}) (or_fail o e)
or_fail-Ensures none e = tt
or_fail-Ensures (some a) e = tt

from-Ensures : (o : Value) → Ensures (λ s. non_empty s ≡ true) (parse_from o)
unfolding parse_from
from-Ensures o =
    Ensures-bind (λ _. Unit {0}) _ (or_fail (as_text (member o (codes "from"))) bad_from) _
      (or_fail-Ensures (as_text (member o (codes "from"))) bad_from)
      λ s _. if-ok _ (non_empty s) s bad_from λ e. e

entries-Ensures : (xs : Items) → Ensures (λ ts. All (λ s. non_empty s ≡ true) ts) (parse_entries xs)
unfolding parse_entries
entries-Ensures nil = tt
entries-Ensures (cons (str t) rest) =
    Ensures-bind (λ ts. All (λ s. non_empty s ≡ true) ts) _ (parse_entries rest) _
      (entries-Ensures rest) λ ts h. if-ok _ (non_empty t) (t ∷ ts) bad_entry λ e. (e, h)
entries-Ensures (cons null rest) = tt
entries-Ensures (cons (bool b) rest) = tt
entries-Ensures (cons (num n) rest) = tt
entries-Ensures (cons (arr xs) rest) = tt
entries-Ensures (cons (obj fs) rest) = tt

to-Ensures : (v : Option Value) → Ensures IsRecipients (parse_to v)
unfolding parse_to parse_entries
to-Ensures none = tt
to-Ensures (some null) = tt
to-Ensures (some (bool b)) = tt
to-Ensures (some (num n)) = tt
to-Ensures (some (str s)) = if-ok _ (non_empty s) (one s) empty_to λ e. e
to-Ensures (some (arr nil)) = tt
to-Ensures (some (arr (cons (str t) rest))) =
    Ensures-bind (λ ts. IsRecipients (many ts)) _ (parse_entries (cons (str t) rest)) _
      (Ensures-bind (λ ts. All (λ s. non_empty s ≡ true) ts) _ (parse_entries rest) _
        (entries-Ensures rest) λ ts h. if-ok _ (non_empty t) (t ∷ ts) bad_entry λ e. (e, h))
      λ ts h. h
to-Ensures (some (arr (cons x rest))) = tt
to-Ensures (some (obj fs)) = tt

id-Ensures : (v : Option Value) → Ensures (λ s. is_uuid s ≡ true) (parse_id v)
unfolding parse_id
id-Ensures (some (str s)) = if-ok _ (is_uuid s) s bad_id λ e. e
id-Ensures none = tt
id-Ensures _ = tt

re-Ensures : (v : Option Value) → Ensures IsReply (parse_re v)
unfolding parse_re
re-Ensures (some (str s)) = if-ok _ (is_uuid s) (some s) bad_re λ e. e
re-Ensures none = tt
re-Ensures _ = tt

object-Ensures : (o : Value) → Ensures IsValid (parse_object o)
unfolding parse_object
object-Ensures o = Ensures-bind _ IsValid (parse_from o) _ (from-Ensures o) λ from from_fits.
    Ensures-bind _ IsValid (parse_to (member o (codes "to"))) _ (to-Ensures (member o (codes "to")))
      λ to to_fits.
        Ensures-bind _ IsValid (parse_id (member o (codes "id"))) _
          (id-Ensures (member o (codes "id")))
          λ id id_fits.
            Ensures-bind _ IsValid (parse_re (member o (codes "re"))) _
              (re-Ensures (member o (codes "re")))
              λ re re_fits.
                Ensures-bind (λ _. Unit {0}) IsValid (or_fail (member o (codes "body")) no_body) _
                  (or_fail-Ensures (member o (codes "body")) no_body)
                  λ body _. record {
                    from = from_fits;
                    to = to_fits;
                    id = id_fits;
                    re = re_fits;
                    body = (body, refl);
                  }

-- `parse` lets nothing through but valid envelopes, whatever value the line holds.
pub parse-Ensures : (line : Option Value) → Ensures IsValid (parse line)
unfolding parse
parse-Ensures none = tt
parse-Ensures (some o) = elim (Bool-cases (is_object o)) [
  | inl e ↦ rw (e, Ensures) (object-Ensures o)
  | inr e ↦ rw (e, Ensures) tt
]

or_fail-Same {ℓ} :
    {A : Type ℓ} (o : Option A) (e : EnvelopeError) → Ensures (λ a. o ≡ some a) (or_fail o e)
or_fail-Same none e = tt
or_fail-Same (some a) e = refl

Ensures-any {ℓ} : {A : Type ℓ} (m : Result A) → Ensures (λ _. Unit {0}) m
Ensures-any (ok a) = tt
Ensures-any (err e) = tt

abbrev pub SameSender : Value → Envelope → Type 0
SameSender o env = as_text (member o (codes "from")) ≡ some env.from

object-SameSender : (o : Value) → Ensures (SameSender o) (parse_object o)
unfolding parse_object parse_from
object-SameSender o =
    Ensures-bind (λ s. as_text (member o (codes "from")) ≡ some s) (SameSender o) (parse_from o) _
      (Ensures-bind (λ s. as_text (member o (codes "from")) ≡ some s) _
        (or_fail (as_text (member o (codes "from"))) bad_from) _
        (or_fail-Same (as_text (member o (codes "from"))) bad_from)
        λ s h. if-ok _ (non_empty s) s bad_from λ _. h)
      λ from same.
        Ensures-bind (λ _. Unit {0}) (SameSender o) (parse_to (member o (codes "to"))) _
          (Ensures-any (parse_to (member o (codes "to"))))
          λ to _.
            Ensures-bind (λ _. Unit {0}) (SameSender o) (parse_id (member o (codes "id"))) _
              (Ensures-any (parse_id (member o (codes "id"))))
              λ id _.
                Ensures-bind (λ _. Unit {0}) (SameSender o) (parse_re (member o (codes "re"))) _
                  (Ensures-any (parse_re (member o (codes "re"))))
                  λ re _.
                    Ensures-bind (λ _. Unit {0}) (SameSender o)
                      (or_fail (member o (codes "body")) no_body) _
                      (or_fail-Ensures (member o (codes "body")) no_body) λ body _. same

pub Ensures-ok {ℓ κ} :
    {A : Type ℓ} (P : A → Type κ) (m : Result A) (a : A) → Ensures P m → m ≡ ok a → P a
Ensures-ok P (ok b) a p h = subst P (injective h) p
  where
    injective : ok b ≡ ok a → b ≡ a
    injective e = cc
Ensures-ok P (err e) a p h = absurd (cc)

-- An envelope that is parsed has the sender of the value.
pub parse-SameSender : (v : Value) (env : Envelope) → parse (some v) ≡ ok env → SameSender v env
unfolding parse
parse-SameSender v env h =
    Ensures-ok (SameSender v) (parse (some v)) env
      (if_elim (Ensures (SameSender v)) (is_object v) (λ _. object-SameSender v) (λ _. tt)) h
