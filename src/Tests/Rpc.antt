-- ===== src/Tests/Rpc.antt =====
-- A transcript of three entries, of which two fit on a page, and the theorems about pages applied to it.
use un_bien.Prelude.{
  ◌≡◌, refl, sym, ◌∙◌, ap, false, codes, some, none, [], ◌∷◌, ◌++◌, ℕ, Text, arith, map, ◌⊎◌, ◌≤◌,
  length, ◌≢◌, false≢true, text_eq_refl, text_eq,
}
use un_bien.Json.{Value, str, obj, field, end}
use un_bien.Rpc.Fitting.{PortEntry, entry_id, fit_entry_for_transport}
use un_bien.Rpc.Pages.{
  GetEntriesResult, remaining_after, page_entries, get_entries, last_id, walk_entries,
  default_max_pages,
}
use un_bien.Rpc.Cutting.{Cut, fits, total, page_entries-Cut}
use un_bien.Rpc.Cursors.{Named, Apart}
use un_bien.Rpc.Walk.{walk_entries_complete}
use un_bien.Rpc.Branching.{walk_entries-twice}

-- Every entry is ten bytes long.
abbrev ten : Value → ℕ
ten v = 10

abbrev entry : Text → PortEntry
entry id = obj (field (codes "type") (str (codes "message")) (field (codes "id") (str id) end))

abbrev first : PortEntry
first = entry (codes "a1")

abbrev second : PortEntry
second = entry (codes "b2")

abbrev third : PortEntry
third = entry (codes "c3")

abbrev session : GetEntriesResult
session = record { entries = first ∷ second ∷ third ∷ []; leaf_id = some (codes "c3") }

pages_run : (page_entries ten session.entries none session.leaf_id 25).leaf_id ≡ some (codes "b2")
unfolding page_entries entry_id text_eq fit_entry_for_transport
pages_run = refl

first_id : entry_id first ≡ some (codes "a1")
unfolding entry_id text_eq
first_id = refl

second_id : entry_id second ≡ some (codes "b2")
unfolding entry_id text_eq
second_id = refl

third_id : entry_id third ≡ some (codes "c3")
unfolding entry_id text_eq
third_id = refl

two_short : 2 ≤ 256
two_short = omega arith

abbrev first_name : Named first
first_name = record { id = codes "a1"; has = first_id; full = refl; short = two_short }

abbrev second_name : Named second
second_name = record { id = codes "b2"; has = second_id; full = refl; short = two_short }

abbrev third_name : Named third
third_name = record { id = codes "c3"; has = third_id; full = refl; short = two_short }

ids_apart :
    (e d : PortEntry) (i j : Text)
    → entry_id e ≡ some i
    → entry_id d ≡ some j
    → text_eq i j ≡ false
    → entry_id d ≢ entry_id e
ids_apart e d i j h k differ same =
    false≢true (sym differ ∙ ap (text_eq i) (sym (equal (sym h ∙ sym same ∙ k))) ∙ text_eq_refl i)
  where
    equal : some i ≡ some j → i ≡ j
    equal e = cc

session-Apart : Apart session.entries
unfolding text_eq
session-Apart = (
  (
    ids_apart first second (codes "a1") (codes "b2") first_id second_id refl,
    (ids_apart first third (codes "a1") (codes "c3") first_id third_id refl, tt),
  ),
  ((ids_apart second third (codes "b2") (codes "c3") second_id third_id refl, tt), (tt, tt)),
)

session_leaf : session.leaf_id ≡ last_id session.entries
unfolding last_id entry_id text_eq
session_leaf = refl

page_entries-Cut_example :
    Cut ten
      (remaining_after session.entries none)
      (page_entries ten session.entries none session.leaf_id 25).entries
    × (((page_entries ten session.entries none session.leaf_id 25).entries ≡ []
          → remaining_after session.entries none ≡ [])
        × ((total ten (page_entries ten session.entries none session.leaf_id 25).entries ≤ 25)
            ⊎ (length (page_entries ten session.entries none session.leaf_id 25).entries ≡ 1)))
page_entries-Cut_example = page_entries-Cut ten session.entries none session.leaf_id 25

walk_entries_complete_example :
    walk_entries default_max_pages (get_entries ten (some session) 25) none
    ≡ map (fit_entry_for_transport ten) session.entries
walk_entries_complete_example =
    walk_entries_complete ten session 25 default_max_pages (omega arith) session_leaf session-Apart
      (first_name, (second_name, (third_name, tt)))

abbrev moved_back : GetEntriesResult
moved_back = record { entries = session.entries; leaf_id = some (codes "a1") }

walk_entries-twice_example :
    walk_entries 2 (get_entries ten (some moved_back) 100) none
    ≡ fits ten session.entries ++ fits ten (second ∷ third ∷ [])
walk_entries-twice_example =
    walk_entries-twice ten 100 0 [] (third ∷ []) first second first_name session-Apart (omega arith)
