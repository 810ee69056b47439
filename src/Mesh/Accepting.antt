-- ===== src/Mesh/Accepting.antt =====
-- A router takes a topology whose keys are canonical and whose labels are told apart.
use un_bien.Prelude.{
  ◌≡◌, refl, ap, ◌∙◌, Bool, true, false, ◌||◌, not, Option, none, some, List, [], ◌∷◌, map, Text,
  text_eq, text_eq_comm, text_eq_refl, arith, All, all, any, is_empty, is_some, insert_by, sort_by,
}
use un_bien.Prelude.Dict
use un_bien.Remote.Topology.{
  PiRoutingIdentity, MeshTopologySnapshot, RoutingState, ok, is_colon, insert_by_pubkey,
  sort_by_pubkey, empty_tables, enter_sibling, add_sibling, add_siblings, others,
  normalize_identity, normalize_siblings, build_tables, build_routing_state,
}
use un_bien.Mesh.Unique.{Unique, sort-Unique, keep-Unique, sort-All, keep-All}
use un_bien.Mesh.Canonical.{at_end}
use un_bien.Mesh.Allocating.{contains-All}
use un_bien.Mesh.Collisions.{is_tilde}
use un_bien.Mesh.Prepared.{is_base_character, IsRoutingAlias, All-map}

abbrev pub pubkey_of : PiRoutingIdentity → Text
pubkey_of i = i.pc_pubkey

abbrev pub label_of : PiRoutingIdentity → Text
label_of i = i.pc_label

no_colon :
    (s : Text) → all (λ c. is_base_character c || is_tilde c) s ≡ true → any is_colon s ≡ false
no_colon [] h = refl
no_colon (c ∷ s) h = ground (arith, no_colon s)

insert_by_pubkey_lem :
    (i : PiRoutingIdentity) (is : List PiRoutingIdentity)
    → insert_by_pubkey i is ≡ insert_by pubkey_of i is
unfolding insert_by_pubkey insert_by
insert_by_pubkey_lem i [] = refl
insert_by_pubkey_lem i (j ∷ is) = rw (insert_by_pubkey_lem i is) refl

sort_by_pubkey_lem : (is : List PiRoutingIdentity) → sort_by_pubkey is ≡ sort_by pubkey_of is
unfolding sort_by_pubkey sort_by
sort_by_pubkey_lem [] = refl
sort_by_pubkey_lem (i ∷ is) =
    ap (insert_by_pubkey i) (sort_by_pubkey_lem is) ∙ insert_by_pubkey_lem i (sort_by pubkey_of is)

-- A sibling that the tables have neither by its key nor by its label, which is not the machine's own.
record Fresh (s : RoutingState) (i : PiRoutingIdentity) : Type 0 where
  label : text_eq i.pc_label s.self.pc_label ≡ false
  key_free : Dict.get s.sibling_by_pubkey i.pc_pubkey ≡ none
  label_free : Dict.get s.sibling_by_label i.pc_label ≡ none

still_Fresh :
    (s : RoutingState) (i j : PiRoutingIdentity)
    → text_eq j.pc_pubkey i.pc_pubkey ≡ false
    → text_eq j.pc_label i.pc_label ≡ false
    → Fresh s j
    → Fresh (enter_sibling s i) j
still_Fresh s i j k l w = record {
  label = w.label;
  key_free =
      Dict.get-set s.sibling_by_pubkey i.pc_pubkey j.pc_pubkey i.pc_label
      ∙ rw (text_eq_comm i.pc_pubkey j.pc_pubkey ∙ k) w.key_free;
  label_free =
      Dict.get-set s.sibling_by_label i.pc_label j.pc_label i.pc_pubkey
      ∙ rw (text_eq_comm i.pc_label j.pc_label ∙ l) w.label_free;
}

all_still_Fresh :
    (s : RoutingState) (i : PiRoutingIdentity) (is : List PiRoutingIdentity)
    → All (λ j. text_eq (pubkey_of j) i.pc_pubkey ≡ false) is
    → All (λ j. text_eq (label_of j) i.pc_label ≡ false) is
    → All (Fresh s) is
    → All (Fresh (enter_sibling s i)) is
all_still_Fresh s i [] k l w = tt
all_still_Fresh s i (j ∷ is) k l w =
    (still_Fresh s i j k.0 l.0 w.0, all_still_Fresh s i is k.1 l.1 w.1)

add_sibling-ok :
    (s : RoutingState) (i : PiRoutingIdentity)
    → Fresh s i
    → add_sibling s i ≡ ok (enter_sibling s i)
unfolding add_sibling
add_sibling-ok s i w = rw (w.label, ap is_some w.key_free, ap is_some w.label_free) refl

add_siblings-ok :
    (s : RoutingState) (is : List PiRoutingIdentity)
    → Unique (map pubkey_of is)
    → Unique (map label_of is)
    → All (Fresh s) is
    → (s' : RoutingState) × (add_siblings s is ≡ ok s')
unfolding add_siblings
add_siblings-ok s [] k l w = (s, refl)
add_siblings-ok s (i ∷ is) k l w =
    let (s', rest) = add_siblings-ok (enter_sibling s i) is k.1 l.1 (
      all_still_Fresh s i is (contains-All pubkey_of is i.pc_pubkey k.0)
        (contains-All label_of is i.pc_label l.0) w.1) in
    (s', rw (add_sibling-ok s i w.0) rest)

module _ (canonical : Text → Option Text) where
  -- An identity that the checks let through unchanged.
  pub record Proper (i : PiRoutingIdentity) : Type 0 where
    pub alias : IsRoutingAlias i.pc_label
    pub legacy : is_empty i.legacy_pc_label ≡ false
    pub key : canonical i.pc_pubkey ≡ some i.pc_pubkey

  normalize_identity-Proper :
      (i : PiRoutingIdentity) → Proper i → normalize_identity canonical i ≡ ok i
  unfolding normalize_identity
  normalize_identity-Proper i w =
      rw (w.alias.0, no_colon i.pc_label w.alias.1, w.legacy, w.key) refl

  normalize_siblings-Proper :
      (is : List PiRoutingIdentity) → All Proper is → normalize_siblings canonical is ≡ ok is
  unfolding normalize_siblings
  normalize_siblings-Proper [] w = refl
  normalize_siblings-Proper (i ∷ is) w =
      rw (normalize_identity-Proper i w.0, normalize_siblings-Proper is w.1) refl

  pub record Acceptable (t : MeshTopologySnapshot) : Type 0 where
    pub self_proper : Proper t.self
    pub proper : All Proper t.siblings
    pub keys : Unique (map pubkey_of t.siblings)
    pub labels : Unique (map label_of t.siblings)
    pub others_labels :
        All (λ (i : PiRoutingIdentity). text_eq i.pc_label t.self.pc_label ≡ false) t.siblings

  pub build_routing_state-ok :
      (t : MeshTopologySnapshot)
      → Acceptable t
      → (s : RoutingState) × (build_routing_state canonical t (some t.self.pc_pubkey) ≡ ok s)
  unfolding build_routing_state build_tables Dict.get
  build_routing_state-ok t w =
      let kept = others t.self t.siblings in
      let (s, added) =
        add_siblings-ok (empty_tables t.self) (sort_by pubkey_of kept)
          (sort-Unique pubkey_of pubkey_of kept (keep-Unique pubkey_of is_other t.siblings w.keys))
          (sort-Unique pubkey_of label_of kept (keep-Unique label_of is_other t.siblings w.labels))
          (sort-All (Fresh (empty_tables t.self)) pubkey_of kept (
            keep-All (Fresh (empty_tables t.self)) is_other t.siblings (
              All-map _ _ t.siblings
                (λ i l. record {
                  label = l;
                  key_free = nothing i.pc_pubkey;
                  label_free = nothing i.pc_label;
                })
                w.others_labels))) in
      (
        s,
        rw (normalize_identity-Proper t.self w.self_proper) (
            rw
              (
                text_eq_refl t.self.pc_pubkey,
                at_end (not (is_empty t.self.pc_pubkey)),
                normalize_siblings-Proper t.siblings w.proper,
                sort_by_pubkey_lem kept,
              )
              added),
      )
    where
      is_other : PiRoutingIdentity → Bool
      is_other i = not (text_eq i.pc_pubkey t.self.pc_pubkey)

      nothing : (k : Text) → Dict.get {V = Text} [] k ≡ none
      nothing k = refl
