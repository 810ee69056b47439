-- ===== src/Inbox/Refinement.antt =====
-- The inbox's map and its order are one list of messages, of which it keeps the newest.
use un_bien.Prelude.{
  ◌≡◌, refl, sym, ap, ◌∙◌, subst, ℕ, ◌-◌, ◌≤◌, true, false, none, some, List, [], ◌∷◌, ◌++◌, map,
  Text, text_eq, contains, suc, zero, text_eq_iff, text_eq_refl, if◌then◌else◌, if_elim, arith,
  false≢true, Bool-cases, inl, inr, ltb, length, drop, length-drop,
}
use un_bien.Prelude.Dict
use un_bien.Prelude.Dict.{Dict}
use un_bien.Inbox.{MeshMessage, MeshInbox, add, notify, drop_oldest, fetch}

abbrev pub entries : List MeshMessage → Dict MeshMessage
entries ms = map (λ m. (m.id, m)) ms

abbrev pub ids : List MeshMessage → List Text
ids ms = map (λ m. m.id) ms

-- The inbox holds the messages `ms`, from the oldest to the newest.
pub record Holds (inbox : MeshInbox) (ms : List MeshMessage) : Type 0 where
  pub messages : inbox.messages ≡ entries ms
  pub order : inbox.order ≡ ids ms
  pub distinct : Dict.Distinct (entries ms)
  pub bounded : length ms ≤ inbox.cap

fetch-skip :
    (k : Text) (m : MeshMessage) (d : Dict MeshMessage) (ms : List MeshMessage)
    → Dict.get (entries ms) k ≡ none
    → fetch ((k, m) ∷ d) (ids ms) ≡ fetch d (ids ms)
unfolding fetch Dict.get
fetch-skip k m d [] h = refl
fetch-skip k m d (x ∷ ms) h =
    rw (apart, fetch-skip k m d ms (ground (arith, text_eq_iff x.id k))) refl
  where
    apart : text_eq k x.id ≡ false
    apart = ground (arith, text_eq_iff k x.id, text_eq_refl k)

pub fetch-entries :
    (ms : List MeshMessage) → Dict.Distinct (entries ms) → fetch (entries ms) (ids ms) ≡ some ms
unfolding fetch Dict.get
fetch-entries [] d = refl
fetch-entries (m ∷ ms) d =
    rw (text_eq_refl m.id, fetch-skip m.id m (entries ms) ms d.0, fetch-entries ms d.1) refl

delete-missing : (d : Dict MeshMessage) (k : Text) → Dict.get d k ≡ none → Dict.delete d k ≡ d
unfolding Dict.get Dict.delete
delete-missing [] k h = refl
delete-missing ((j, v) ∷ d) k h = ground (arith, delete-missing d k)

set-missing :
    (d : Dict MeshMessage) (k : Text) (v : MeshMessage)
    → Dict.get d k ≡ none
    → Dict.set d k v ≡ d ++ ((k, v) ∷ [])
unfolding Dict.get Dict.set
set-missing [] k v h = refl
set-missing ((j, w) ∷ d) k v h = ground (arith, set-missing d k v)

length-ids : (ms : List MeshMessage) → length (ids ms) ≡ length ms
length-ids [] = refl
length-ids (m ∷ ms) = omega (arith, length-ids ms)

abbrev last_of : ℕ → List MeshMessage → Dict MeshMessage × List Text
last_of n ms = (entries (drop n ms), ids (drop n ms))

delete-first :
    (m : MeshMessage) (ms : List MeshMessage)
    → Dict.Distinct (entries (m ∷ ms))
    → Dict.delete (entries (m ∷ ms)) m.id ≡ entries ms
unfolding Dict.delete
delete-first m ms d = rw (text_eq_refl m.id) (delete-missing (entries ms) m.id d.0)

drop_oldest-entries :
    (cap : ℕ) (ms : List MeshMessage)
    → Dict.Distinct (entries ms)
    → drop_oldest cap (entries ms) (ids ms) ≡ last_of (length ms - cap) ms
unfolding drop_oldest
drop_oldest-entries cap [] d = let e : 0 ≡ 0 - cap = omega arith in ap (λ n. last_of n []) e
drop_oldest-entries cap (m ∷ ms) d =
    if_elim (λ x. x ≡ last_of (length (m ∷ ms) - cap) (m ∷ ms)) (ltb cap (length (ids (m ∷ ms))))
      (λ over.
        ap (λ e. drop_oldest cap e (ids ms)) (delete-first m ms d)
        ∙ drop_oldest-entries cap ms d.1
        ∙ ap (λ n. last_of n (m ∷ ms)) (sym (one_more (ground (arith, length-ids ms)))))
      (λ within. ap (λ n. last_of n (m ∷ ms)) (sym (none_more (ground (arith, length-ids ms)))))
  where
    one_more : cap ≤ length ms → length (m ∷ ms) - cap ≡ suc (length ms - cap)
    one_more h = omega (arith, h)

    none_more : length (m ∷ ms) ≤ cap → length (m ∷ ms) - cap ≡ 0
    none_more h = omega (arith, h)

-- Keeping the newest `cap` of the messages and the new one, which is not among them.
abbrev pub spec_add : ℕ → List MeshMessage → MeshMessage → List MeshMessage
spec_add cap ms m =
    if contains (ids ms) m.id then ms else drop (length (ms ++ (m ∷ [])) - cap) (ms ++ (m ∷ []))

entries-append : (ms ns : List MeshMessage) → entries (ms ++ ns) ≡ entries ms ++ entries ns
entries-append [] ns = refl
entries-append (m ∷ ms) ns = ap (λ x. (m.id, m) ∷ x) (entries-append ms ns)

ids-append : (ms ns : List MeshMessage) → ids (ms ++ ns) ≡ ids ms ++ ids ns
ids-append [] ns = refl
ids-append (m ∷ ms) ns = ap (λ x. m.id ∷ x) (ids-append ms ns)

has-entries : (ms : List MeshMessage) (k : Text) → Dict.has (entries ms) k ≡ contains (ids ms) k
unfolding Dict.get contains
has-entries [] k = refl
has-entries (m ∷ ms) k = ground (arith, has-entries ms k)

get-of_absent : (d : Dict MeshMessage) (k : Text) → Dict.has d k ≡ false → Dict.get d k ≡ none
get-of_absent d k h = ground arith

drop-Distinct :
    (n : ℕ) (ms : List MeshMessage)
    → Dict.Distinct (entries ms)
    → Dict.Distinct (entries (drop n ms))
drop-Distinct zero ms d = d
drop-Distinct (suc n) [] d = d
drop-Distinct (suc n) (m ∷ ms) d = drop-Distinct n ms d.1

append-Distinct :
    (ms : List MeshMessage) (m : MeshMessage)
    → Dict.get (entries ms) m.id ≡ none
    → Dict.Distinct (entries ms)
    → Dict.Distinct (entries (ms ++ (m ∷ [])))
unfolding Dict.get
append-Distinct [] m h d = (refl, tt)
append-Distinct (x ∷ ms) m h d =
    (get-append ms (ground (arith, text_eq_iff x.id m.id)), append-Distinct ms m (ground arith) d.1)
  where
    get-append :
        (ys : List MeshMessage)
        → Dict.get (entries ys) x.id ≡ none
        → Dict.get (entries (ys ++ (m ∷ []))) x.id ≡ none
    get-append [] e = ground (arith, text_eq_iff x.id m.id, text_eq_iff m.id x.id)
    get-append (y ∷ ys) e = ground (arith, get-append ys)

abbrev pub added : MeshInbox → MeshMessage → MeshInbox
added inbox m =
    let kept =
      drop_oldest inbox.cap (Dict.set inbox.messages m.id m) (inbox.order ++ (m.id ∷ [])) in
    record inbox { messages = kept.0; order = kept.1 }

add-known :
    (inbox : MeshInbox) (m : MeshMessage)
    → Dict.has inbox.messages m.id ≡ true
    → add inbox m ≡ inbox
unfolding add
add-known inbox m h =
    if_elim (λ x. x ≡ inbox) (Dict.has inbox.messages m.id) (λ _. refl)
      (λ k. absurd (false≢true (sym k ∙ h)))

add-new :
    (inbox : MeshInbox) (m : MeshMessage)
    → Dict.has inbox.messages m.id ≡ false
    → add inbox m ≡ notify (added inbox m) m
unfolding add
add-new inbox m h =
    if_elim (λ x. x ≡ notify (added inbox m) m) (Dict.has inbox.messages m.id)
      (λ k. absurd (false≢true (sym h ∙ k))) (λ _. refl)

-- The two cases of `add`: the message is there, or it is new.
pub add_cases {ℓ} :
    (P : MeshInbox → List MeshMessage → Type ℓ) (inbox : MeshInbox) (ms : List MeshMessage)
    (m : MeshMessage)
    → Holds inbox ms
    → (contains (ids ms) m.id ≡ true → P inbox ms)
    → (contains (ids ms) m.id ≡ false
        → P
            (notify (added inbox m) m)
            (drop (length (ms ++ (m ∷ [])) - inbox.cap) (ms ++ (m ∷ []))))
    → P (add inbox m) (spec_add inbox.cap ms m)
add_cases P inbox ms m h known new = elim (Bool-cases (contains (ids ms) m.id)) [
  | inl k ↦ rw (add-known inbox m (listed ∙ k), k) (known k)
  | inr n ↦ rw (n) (
      subst (λ x. P x (drop (length (ms ++ (m ∷ [])) - inbox.cap) (ms ++ (m ∷ []))))
        (sym (add-new inbox m (listed ∙ n))) (new n))
]
  where
    listed : Dict.has inbox.messages m.id ≡ contains (ids ms) m.id
    listed = ap (λ d. Dict.has d m.id) h.messages ∙ has-entries ms m.id

-- Where an inbox holds the messages `ms`, its map and its order hold after `add` what the
-- specification says: the same if the id is there, and else the newest `cap` of them and the new
-- one.
pub add-Holds :
    (inbox : MeshInbox) (ms : List MeshMessage) (m : MeshMessage)
    → Holds inbox ms
    → Holds (add inbox m) (spec_add inbox.cap ms m)
unfolding notify
add-Holds inbox ms m h = add_cases Holds inbox ms m h (λ _. h) newly
  where
    all : List MeshMessage
    all = ms ++ (m ∷ [])

    newly :
        contains (ids ms) m.id ≡ false
        → Holds (notify (added inbox m) m) (drop (length all - inbox.cap) all)
    newly new = record {
      messages = ap (λ k. k.0) kept;
      order = ap (λ k. k.1) kept;
      distinct = drop-Distinct (length all - inbox.cap) all distinct;
      bounded = omega (arith, length-drop (length all - inbox.cap) all);
    }
      where
        absent : Dict.get (entries ms) m.id ≡ none
        absent = get-of_absent (entries ms) m.id (has-entries ms m.id ∙ new)

        distinct : Dict.Distinct (entries all)
        distinct = append-Distinct ms m absent h.distinct

        set_last : Dict.set inbox.messages m.id m ≡ entries all
        set_last =
            ap (λ d. Dict.set d m.id m) h.messages
            ∙ set-missing (entries ms) m.id m absent
            ∙ sym (entries-append ms (m ∷ []))

        pushed : inbox.order ++ (m.id ∷ []) ≡ ids all
        pushed = ap (λ o. o ++ (m.id ∷ [])) h.order ∙ sym (ids-append ms (m ∷ []))

        kept :
            drop_oldest inbox.cap (Dict.set inbox.messages m.id m) (inbox.order ++ (m.id ∷ []))
            ≡ last_of (length all - inbox.cap) all
        kept =
            ap (λ d. drop_oldest inbox.cap d (inbox.order ++ (m.id ∷ []))) set_last
            ∙ ap (drop_oldest inbox.cap (entries all)) pushed
            ∙ drop_oldest-entries inbox.cap all distinct
