-- ===== src/Mesh/Aliases.antt =====
-- The routing aliases of extension/src/mesh/encoding.ts: `encodeRoutingAlias`, `selectRoutingNickname`
-- and `allocateRoutingAliases`. `utf8` is `Buffer.from(text, "utf8")`, a parameter.
use un_bien.Prelude.{
  ℕ, zero, suc, ◌+◌, ◌-◌, ◌/◌, ◌%◌, Bool, true, ◌&&◌, ◌||◌, not, Option, none, some, List, [], ◌∷◌,
  ◌++◌, map, Text, text_eq, text_lt, if◌then◌else◌, ltb, ◌==◌, option_else, any, length, take,
  contains, codes, is_empty, keep, sort_by, truthy,
}
use un_bien.Prelude.Dict
use un_bien.Prelude.Dict.{Dict}
use un_bien.Prelude.Results.{Result, ok, err, ◌>>=◌, map_err}
use un_bien.Mesh.Keys.{
  Base64, KeyError, is_alphanumeric, decode_ed25519_public_key, encode_ed25519_public_key,
  to_base64_url_no_pad,
}

pub record RoutingAliasInput : Type 0 where
  pub pc_pubkey : Text
  pub nickname : Option Text

pub record PreparedRoutingAlias : Type 0 where
  pub pc_pubkey : Text
  pub key_url : Text
  pub base : Text

pub data AliasError : Type 0 where
  bad_key : KeyError → AliasError
  duplicate_routing_identity collision_invariant_failed : AliasError

abbrev pub is_routing_alias_safe_byte : ℕ → Bool
is_routing_alias_safe_byte b = is_alphanumeric b || b == b'.' || b == b'_' || b == b'-'

-- A digit of `byte.toString(16).toUpperCase()`.
abbrev pub hex_digit : ℕ → ℕ
hex_digit n = if ltb n 10 then b'0' + n else b'A' + (n - 10)

-- With `rest` behind.
unfoldable pub encode_byte : ℕ → Text → Text
encode_byte b rest =
    if is_routing_alias_safe_byte b
    then b ∷ rest
    else b'%' ∷ hex_digit (b / 16) ∷ hex_digit (b % 16) ∷ rest

unfoldable pub encode_bytes : List ℕ → Text
unfolding encode_byte
encode_bytes [] = []
encode_bytes (b ∷ bs) = encode_byte b (encode_bytes bs)

-- `Set.add`
abbrev pub add_text : List Text → Text → List Text
add_text set t = if contains set t then set else set ++ (t ∷ [])

-- `new Set(texts)`, after those of `set`.
unfoldable pub add_texts : List Text → List Text → List Text
unfolding contains
add_texts set [] = set
add_texts set (t ∷ ts) = add_texts (add_text set t) ts

-- `groupsByBase`, with one identity more.
abbrev pub add_to_group :
    Dict (List PreparedRoutingAlias) → PreparedRoutingAlias → Dict (List PreparedRoutingAlias)
add_to_group groups i =
    Dict.set groups i.base (option_else (Dict.get groups i.base) [] (λ g. g) ++ (i ∷ []))

unfoldable pub group_by_base :
    Dict (List PreparedRoutingAlias) → List PreparedRoutingAlias → Dict (List PreparedRoutingAlias)
group_by_base groups [] = groups
group_by_base groups (i ∷ rest) = group_by_base (add_to_group groups i) rest

pub record Allocation : Type 0 where
  pub alias_by_key : Dict Text
  pub allocated_aliases : List Text

abbrev pub enter_alias : Allocation → PreparedRoutingAlias → Text → Allocation
enter_alias a i alias = record {
  alias_by_key = Dict.set a.alias_by_key i.pc_pubkey alias;
  allocated_aliases = add_text a.allocated_aliases alias;
}

-- The groups of one identity, which is called by its base.
unfoldable pub enter_singles : Allocation → Dict (List PreparedRoutingAlias) → Allocation
enter_singles a [] = a
enter_singles a ((b, []) ∷ rest) = enter_singles a rest
enter_singles a ((b, i ∷ []) ∷ rest) = enter_singles (enter_alias a i i.base) rest
enter_singles a ((b, i ∷ j ∷ g) ∷ rest) = enter_singles a rest

abbrev pub candidate : Text → ℕ → PreparedRoutingAlias → Text
candidate base n i = base ++ (b'~' ∷ take n i.key_url)

abbrev pub candidates : Text → ℕ → List PreparedRoutingAlias → List Text
candidates base n = map (candidate base n)

unfoldable pub is_free : List Text → Allocation → List Text → Bool
unfolding add_texts contains
is_free reserved a texts =
    length (add_texts [] texts) == length texts
    && not (any (λ t. contains reserved t || contains a.allocated_aliases t) texts)

unfoldable pub enter_group : Allocation → Text → ℕ → List PreparedRoutingAlias → Allocation
enter_group a base n [] = a
enter_group a base n (i ∷ g) = enter_group (enter_alias a i (candidate base n i)) base n g

-- The shortest prefix of the keys, of at least `n` characters, that tells the group apart.
unfoldable pub try_prefixes :
    List Text → Allocation → Text → List PreparedRoutingAlias → ℕ → ℕ → Option Allocation
unfolding is_free enter_group
try_prefixes reserved a base g zero n = none
try_prefixes reserved a base g (suc rounds) n =
    let rest = try_prefixes reserved a base g rounds (suc n) in
    if is_free reserved a (candidates base n g) then some (enter_group a base n g) else rest

abbrev pub full_prefix_length : List PreparedRoutingAlias → ℕ
full_prefix_length [] = 0
full_prefix_length (i ∷ g) = length i.key_url

-- As many rounds as there are prefixes of 8 characters up to the whole key.
unfoldable pub enter_colliding :
    List Text → Allocation → Dict (List PreparedRoutingAlias) → Result AliasError Allocation
unfolding try_prefixes
enter_colliding reserved a [] = ok a
enter_colliding reserved a ((base, g) ∷ rest) =
    option_else (try_prefixes reserved a base g (full_prefix_length g + 1 - 8) 8)
      (err collision_invariant_failed) λ next. enter_colliding reserved next rest

abbrev pub is_colliding : Text × List PreparedRoutingAlias → Bool
is_colliding (base, g) = ltb 1 (length g)

abbrev pub base_of : Text × List PreparedRoutingAlias → Text
base_of (base, g) = base

abbrev pub empty_allocation : Allocation
empty_allocation = record { alias_by_key = []; allocated_aliases = [] }

-- The aliases of identities that are told apart by their keys. An alias that were missing would read
-- as the empty text, which is none.
unfoldable pub allocate_prepared : List PreparedRoutingAlias → Result AliasError (Dict Text)
unfolding group_by_base enter_singles enter_colliding sort_by
allocate_prepared prepared =
    let groups = group_by_base [] prepared in
    enter_colliding (Dict.keys groups) (enter_singles empty_allocation groups)
      (sort_by base_of (keep is_colliding groups))
    >>= λ a. ok (
        map
          (λ (i : PreparedRoutingAlias).
            (i.pc_pubkey, option_else (Dict.get a.alias_by_key i.pc_pubkey) [] (λ alias. alias)))
          prepared)

module _ (base64 : Base64) (utf8 : Text → List ℕ) where
  unfoldable pub encode_routing_alias : Text → Text
  unfolding encode_bytes
  encode_routing_alias raw = encode_bytes (utf8 raw)

  -- Whether the candidate comes before the one that is selected.
  abbrev pub is_before : Text → Option Text → Bool
  unfolding encode_routing_alias text_lt text_eq
  is_before candidate_text none = true
  is_before candidate_text (some selected) =
      text_lt (encode_routing_alias candidate_text) (encode_routing_alias selected)
      || text_eq (encode_routing_alias candidate_text) (encode_routing_alias selected)
        && text_lt (utf8 candidate_text) (utf8 selected)

  unfoldable pub select_from : Option Text → List Text → Option Text
  unfolding encode_routing_alias text_lt text_eq
  select_from selected [] = selected
  select_from selected (c ∷ cs) =
      select_from (if not (is_empty c) && is_before c selected then some c else selected) cs

  unfoldable pub select_routing_nickname : List Text → Option Text
  unfolding select_from
  select_routing_nickname = select_from none

  abbrev pub base_for : Option Text → Text → Text
  unfolding encode_routing_alias
  base_for nickname key_url =
      option_else (truthy nickname) (codes "pc-" ++ take 8 key_url) encode_routing_alias

  unfoldable pub prepare_alias : RoutingAliasInput → Result AliasError PreparedRoutingAlias
  unfolding decode_ed25519_public_key encode_ed25519_public_key to_base64_url_no_pad
      encode_routing_alias
  prepare_alias input = do
    bytes ← map_err bad_key (decode_ed25519_public_key base64 input.pc_pubkey)
    pc_pubkey ← map_err bad_key (encode_ed25519_public_key base64 bytes)
    ok (record {
      pc_pubkey = pc_pubkey;
      key_url = to_base64_url_no_pad base64 bytes;
      base = base_for input.nickname (to_base64_url_no_pad base64 bytes);
    })

  unfoldable pub prepare :
      Dict PreparedRoutingAlias
      → List RoutingAliasInput
      → Result AliasError (Dict PreparedRoutingAlias)
  unfolding prepare_alias
  prepare by_key [] = ok by_key
  prepare by_key (input ∷ rest) = prepare_alias input >>= λ p.
      if Dict.has by_key p.pc_pubkey
      then err duplicate_routing_identity
      else prepare (Dict.set by_key p.pc_pubkey p) rest

  unfoldable pub allocate_routing_aliases : List RoutingAliasInput → Result AliasError (Dict Text)
  unfolding prepare allocate_prepared sort_by
  allocate_routing_aliases inputs = prepare [] inputs >>= λ by_key.
      allocate_prepared (sort_by (λ (i : PreparedRoutingAlias). i.pc_pubkey) (Dict.values by_key))
