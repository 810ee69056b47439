-- ===== src/Broker/Naming.antt =====
-- `_identityForRegister`: the name and address that a peer gets.
use un_bien.Prelude.{
  ℕ, zero, suc, ◌+◌, Bool, true, false, ◌&&◌, not, Option, none, some, [], ◌∷◌, ◌++◌, Text,
  if◌then◌else◌, option_else, leb, length, decimal,
}
use un_bien.Prelude.Dict
use un_bien.Prelude.Dict.{Dict}
use un_bien.Envelope.{non_empty}
use un_bien.Envelope.{non_empty}
use un_bien.Address.{
  compose_address, sanitize_mesh_name, strip_suffix, is_bounded_peer_info, max_peers_update_entries,
}

pub record Identity : Type 0 where
  pub name : Text
  pub address : Text
  pub replaces : Bool

unfoldable pub candidate_for : Text → Text → Option Identity
candidate_for cwd name =
    let address = compose_address [] cwd name in
    if is_bounded_peer_info cwd name address
    then some (record { name = name; address = address; replaces = false })
    else none

-- The loop over `#n`, with the rounds that are left.
unfoldable pub next_suffix : Dict ℕ → Text → Text → ℕ → ℕ → Option Identity
next_suffix peers cwd base n zero = none
next_suffix peers cwd base n (suc rounds) =
    let rest = next_suffix peers cwd base (n + 1) rounds in
    option_else (candidate_for cwd (base ++ (b'#' ∷ decimal n))) none
      λ candidate. if Dict.has peers candidate.address then rest else some candidate

-- `for (let n = 2; n < 1000; n++)`
abbrev pub suffix_rounds : ℕ
suffix_rounds = 998

-- A registration that may take over the address of a peer with the same folder and name.
abbrev pub takes_over : Dict ℕ → Text → Bool → Identity → Bool
takes_over peers cwd takeover direct = takeover && non_empty cwd && Dict.has peers direct.address

unfoldable pub free_identity : Dict ℕ → Text → Text → Identity → Option Identity
free_identity peers cwd sanitized direct =
    if leb max_peers_update_entries (length peers)
    then none
    else if not (Dict.has peers direct.address)
    then some direct
    else next_suffix peers cwd (strip_suffix sanitized) 2 suffix_rounds

unfoldable pub identity_for_register : Dict ℕ → Text → Text → Bool → Option Identity
identity_for_register peers cwd requested takeover =
    let sanitized = sanitize_mesh_name requested in
    option_else (candidate_for cwd sanitized) none λ direct.
      if takes_over peers cwd takeover direct
      then some (record direct { replaces = true })
      else free_identity peers cwd sanitized direct
