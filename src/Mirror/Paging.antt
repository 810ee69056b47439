-- ===== src/Mirror/Paging.antt =====
-- The transcript of the mirror is one chain, which grows only by new records and which pages cover.
use un_bien.Prelude.{
  ◌≡◌, refl, sym, ap, ◌∙◌, ℕ, true, false, false≢true, Option, none, some, List, [], ◌∷◌, ◌++◌,
  Text, text_eq, text_eq_refl, if_elim, option_else, option_else-some, All, arith,
}
use un_bien.Mirror.{
  EntryRecord, WireEntry, PortEntry, TranscriptMirror, leaf_id, push_all, is_held, take_in, ingest,
  after_id, page, to_wire,
}

-- Each entry has the one before it for its parent; `last` is the one before the first.
abbrev pub IsChain : Option Text → List PortEntry → Type 0
IsChain last [] = Unit
IsChain last (e ∷ es) = (e.parent_id ≡ last) × IsChain (some e.entry.id) es

abbrev pub last_or : Option Text → List PortEntry → Option Text
last_or last [] = last
last_or last (e ∷ es) = last_or (some e.entry.id) es

last_or-leaf :
    (e : PortEntry) (es : List PortEntry) → last_or (some e.entry.id) es ≡ leaf_id (e ∷ es)
unfolding leaf_id
last_or-leaf e [] = refl
last_or-leaf e (f ∷ es) = last_or-leaf f es

leaf-last : (wire : List PortEntry) → leaf_id wire ≡ last_or none wire
unfolding leaf_id
leaf-last [] = refl
leaf-last (e ∷ es) = sym (last_or-leaf e es)

snoc-IsChain :
    (last : Option Text) (es : List PortEntry) (e : PortEntry)
    → IsChain last es
    → e.parent_id ≡ last_or last es
    → IsChain last (es ++ (e ∷ []))
snoc-IsChain last [] e h p = (p, tt)
snoc-IsChain last (x ∷ es) e h p = (h.0, snoc-IsChain (some x.entry.id) es e h.1 p)

push_all-IsChain :
    (wire : List PortEntry) (es : List WireEntry)
    → IsChain none wire
    → IsChain none (push_all wire es)
unfolding push_all
push_all-IsChain wire [] h = h
push_all-IsChain wire (e ∷ es) h =
    push_all-IsChain _ es (snoc-IsChain none wire _ h (leaf-last wire))

module _ (iso seen : ℕ → Text) where
  abbrev Chained : TranscriptMirror × List EntryRecord → Type 0
  Chained r = IsChain none r.0.wire

  -- However the records come, the wire entries are one chain: each has for its parent the one before.
  pub ingest-IsChain :
      (m : TranscriptMirror) (rs : List EntryRecord)
      → IsChain none m.wire
      → IsChain none (ingest iso seen m rs).0.wire
  unfolding ingest
  ingest-IsChain m [] h = h
  ingest-IsChain m (r ∷ rs) h =
      if_elim Chained (is_held m.newest r.id) (λ _. ingest-IsChain m rs h)
        (λ _.
          ingest-IsChain (take_in iso seen m r) rs (push_all-IsChain m.wire (to_wire iso seen r) h))

  abbrev Holding : ℕ → TranscriptMirror × List EntryRecord → Type 0
  Holding id r = is_held r.0.newest id ≡ true

  abbrev HoldingAll : List EntryRecord → TranscriptMirror × List EntryRecord → Type 0
  HoldingAll rs x = All (λ r. is_held x.0.newest r.id ≡ true) rs

  held_later :
      (n : Option ℕ) (id new : ℕ)
      → is_held n id ≡ true
      → is_held n new ≡ false
      → is_held (some new) id ≡ true
  held_later none id new h k = absurd (false≢true h)
  held_later (some n) id new h k = ground arith

  ingest-held :
      (m : TranscriptMirror) (rs : List EntryRecord) (id : ℕ)
      → is_held m.newest id ≡ true
      → is_held (ingest iso seen m rs).0.newest id ≡ true
  unfolding ingest
  ingest-held m [] id h = h
  ingest-held m (r ∷ rs) id h =
      if_elim (Holding id) (is_held m.newest r.id) (λ _. ingest-held m rs id h)
        (λ k. ingest-held (take_in iso seen m r) rs id (held_later m.newest id r.id h k))

  ingest-holds :
      (m : TranscriptMirror) (rs : List EntryRecord)
      → All (λ r. is_held (ingest iso seen m rs).0.newest r.id ≡ true) rs
  unfolding ingest
  ingest-holds m [] = tt
  ingest-holds m (r ∷ rs) =
      if_elim (HoldingAll (r ∷ rs)) (is_held m.newest r.id)
        (λ k. (ingest-held m rs r.id k, ingest-holds m rs))
        (λ _. (
          ingest-held (take_in iso seen m r) rs r.id (ground arith),
          ingest-holds (take_in iso seen m r) rs,
        ))

  ingest_known :
      (m : TranscriptMirror) (rs : List EntryRecord)
      → All (λ r. is_held m.newest r.id ≡ true) rs
      → ingest iso seen m rs ≡ (m, [])
  unfolding ingest
  ingest_known m [] h = refl
  ingest_known m (r ∷ rs) h = rw (h.0) (ingest_known m rs h.1)

  -- Offering the same records again, in whatever order they stand, adds nothing.
  pub ingest_twice :
      (m : TranscriptMirror) (rs : List EntryRecord)
      → ingest iso seen (ingest iso seen m rs).0 rs ≡ ((ingest iso seen m rs).0, [])
  ingest_twice m rs = ingest_known (ingest iso seen m rs).0 rs (ingest-holds m rs)

-- The id of an entry that stands after the entries `before`, none of which has it.
after_id-append :
    (before : List PortEntry) (e : PortEntry) (rest : List PortEntry)
    → All (λ x. text_eq x.entry.id e.entry.id ≡ false) before
    → after_id e.entry.id (before ++ (e ∷ rest)) ≡ some rest
unfolding after_id
after_id-append [] e rest h = rw (text_eq_refl e.entry.id) refl
after_id-append (x ∷ before) e rest h = rw (h.0) (after_id-append before e rest h.1)

last_or-append :
    (last : Option Text) (before : List PortEntry) (e : PortEntry) (rest : List PortEntry)
    → last_or last (before ++ (e ∷ rest)) ≡ last_or (some e.entry.id) rest
last_or-append last [] e rest = refl
last_or-append last (x ∷ before) e rest = last_or-append (some x.entry.id) before e rest

-- A page since the id of an entry, which no entry before it has, is all that follows the entry,
-- with the id of the newest entry.
pub page_since :
    (m : TranscriptMirror) (before rest : List PortEntry) (e : PortEntry)
    → m.wire ≡ before ++ (e ∷ rest)
    → All (λ x. text_eq x.entry.id e.entry.id ≡ false) before
    → page m (some e.entry.id) ≡ some (rest, last_or (some e.entry.id) rest)
unfolding page
page_since m before rest e split new =
    ap (λ w. option_else (after_id e.entry.id w) none (λ es. some (es, leaf_id w))) split
    ∙ option_else-some (after_id e.entry.id (before ++ (e ∷ rest))) _ _ rest
        (after_id-append before e rest new)
    ∙ ap (λ leaf. some (rest, leaf))
        (leaf-last (before ++ (e ∷ rest)) ∙ last_or-append none before e rest)
