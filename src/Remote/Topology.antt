-- ===== src/Remote/Topology.antt =====
-- The tables of a topology: `buildRoutingState` and its checks. `canonical` is
-- `canonicalizeEd25519PublicKey`, or nothing where that throws. No alias, label or key of a table is the
-- empty string, so where the code asks whether one that it looked up is truthy, it asks whether it is
-- there.
use un_bien.Prelude.{
  ℕ, Bool, false, ◌&&◌, ◌||◌, not, Option, none, some, List, [], ◌∷◌, Text, text_eq, if◌then◌else◌,
  text_lt, is_empty, ◌==◌, any, keep,
}
use un_bien.Prelude.Dict
use un_bien.Prelude.Dict.{Dict}

-- `PiRoutingIdentity`
pub record PiRoutingIdentity : Type 0 where
  pub pc_label : Text
  pub pc_pubkey : Text
  pub legacy_pc_label : Text

pub record MeshTopologySnapshot : Type 0 where
  pub self : PiRoutingIdentity
  pub siblings : List PiRoutingIdentity

pub record RoutingState : Type 0 where
  pub self : PiRoutingIdentity
  pub sibling_by_label : Dict Text
  pub sibling_by_pubkey : Dict Text
  pub sibling_legacy_label_by_pubkey : Dict Text

pub data TopologyError : Type 0 where
  bad_alias bad_legacy_label bad_public_key self_key_changed : TopologyError
  alias_of_self duplicate_key duplicate_alias is_detached : TopologyError

-- A value, or the error that is thrown.
pub data Checked {ℓ} (A : Type ℓ) : Type ℓ where
  ok : A → Checked A
  err : TopologyError → Checked A

infixl 5 ◌>>=◌
abbrev pub ◌>>=◌ {ℓ κ} : {A : Type ℓ} {B : Type κ} → Checked A → (A → Checked B) → Checked B
ok a >>= f = f a
err e >>= f = err e

abbrev pub or_throw {ℓ} : {A : Type ℓ} → Option A → TopologyError → Checked A
or_throw none e = err e
or_throw (some a) e = ok a

abbrev pub is_colon : ℕ → Bool
is_colon c = c == b':'

abbrev pub validate_alias : Text → Checked Text
validate_alias alias = if is_empty alias || any is_colon alias then err bad_alias else ok alias

abbrev pub validate_legacy_pc_label : Text → Checked Text
validate_legacy_pc_label label = if is_empty label then err bad_legacy_label else ok label

-- A stable sort by the key.
unfoldable pub insert_by_pubkey :
    PiRoutingIdentity → List PiRoutingIdentity → List PiRoutingIdentity
unfolding text_lt
insert_by_pubkey i [] = i ∷ []
insert_by_pubkey i (j ∷ rest) =
    if text_lt j.pc_pubkey i.pc_pubkey then j ∷ insert_by_pubkey i rest else i ∷ j ∷ rest

unfoldable pub sort_by_pubkey : List PiRoutingIdentity → List PiRoutingIdentity
unfolding insert_by_pubkey
sort_by_pubkey [] = []
sort_by_pubkey (i ∷ rest) = insert_by_pubkey i (sort_by_pubkey rest)

abbrev identity : Text → Text → Text → PiRoutingIdentity
identity alias legacy key = record { pc_label = alias; pc_pubkey = key; legacy_pc_label = legacy }

abbrev pub empty_tables : PiRoutingIdentity → RoutingState
empty_tables self = record {
  self = self;
  sibling_by_label = [];
  sibling_by_pubkey = [];
  sibling_legacy_label_by_pubkey = [];
}

abbrev pub enter_sibling : RoutingState → PiRoutingIdentity → RoutingState
enter_sibling s i = record s {
  sibling_by_label = Dict.set s.sibling_by_label i.pc_label i.pc_pubkey;
  sibling_by_pubkey = Dict.set s.sibling_by_pubkey i.pc_pubkey i.pc_label;
  sibling_legacy_label_by_pubkey =
      Dict.set s.sibling_legacy_label_by_pubkey i.pc_pubkey i.legacy_pc_label;
}

unfoldable pub add_sibling : RoutingState → PiRoutingIdentity → Checked RoutingState
add_sibling s i =
    if text_eq i.pc_label s.self.pc_label
    then err alias_of_self
    else if Dict.has s.sibling_by_pubkey i.pc_pubkey
    then err duplicate_key
    else if Dict.has s.sibling_by_label i.pc_label
    then err duplicate_alias
    else ok (enter_sibling s i)

unfoldable pub add_siblings : RoutingState → List PiRoutingIdentity → Checked RoutingState
unfolding add_sibling
add_siblings s [] = ok s
add_siblings s (i ∷ rest) = do next ← add_sibling s i; add_siblings next rest

abbrev pub others : PiRoutingIdentity → List PiRoutingIdentity → List PiRoutingIdentity
others self = keep (λ (i : PiRoutingIdentity). not (text_eq i.pc_pubkey self.pc_pubkey))

-- `expectedSelfPubkey && selfPubkey !== expectedSelfPubkey`
abbrev pub changes_self : Option Text → PiRoutingIdentity → Bool
changes_self none self = false
changes_self (some expected) self = not (is_empty expected) && not (text_eq self.pc_pubkey expected)

module _ (canonical : Text → Option Text) where
  unfoldable pub normalize_identity : PiRoutingIdentity → Checked PiRoutingIdentity
  normalize_identity i = do
    alias ← validate_alias i.pc_label
    legacy ← validate_legacy_pc_label i.legacy_pc_label
    key ← or_throw (canonical i.pc_pubkey) bad_public_key
    ok (identity alias legacy key)

  unfoldable pub normalize_siblings : List PiRoutingIdentity → Checked (List PiRoutingIdentity)
  unfolding normalize_identity
  normalize_siblings [] = ok []
  normalize_siblings (i ∷ rest) = do
    first ← normalize_identity i
    more ← normalize_siblings rest
    ok (first ∷ more)

  unfoldable pub build_tables :
      Option Text → PiRoutingIdentity → List PiRoutingIdentity → Checked RoutingState
  unfolding normalize_siblings add_siblings sort_by_pubkey
  build_tables expected self siblings =
      if changes_self expected self then err self_key_changed else do
        normalized ← normalize_siblings siblings
        add_siblings (empty_tables self) (sort_by_pubkey (others self normalized))

  unfoldable pub build_routing_state : MeshTopologySnapshot → Option Text → Checked RoutingState
  unfolding build_tables normalize_identity
  build_routing_state topology expected = do
    self ← normalize_identity topology.self
    build_tables expected self topology.siblings
