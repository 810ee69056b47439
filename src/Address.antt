-- ===== src/Address.antt =====
-- The names and addresses of mesh peers: `composeAddress`, `sanitizeMeshName` and the path tests of
-- extension/src/session/broker.ts, `sanitizeSegment` and `migrateAgentName` of local_config.ts, and
-- the limits of peer_limits.ts. Regular expressions are written out as functions on code units.
pub mod Safety
pub mod Idempotence
pub mod Injective
use un_bien.Prelude.{
  ◌≡◌, refl, ℕ, zero, suc, ◌+◌, Bool, true, false, ◌&&◌, ◌||◌, not, Option, none, some, List, [],
  ◌∷◌, ◌++◌, Text, text_eq, if◌then◌else◌, codes, leb, ltb, ◌==◌, length, decimal, all, option_else,
}

-- `\s`, which is also what `trim` removes.
unfoldable pub is_space : ℕ → Bool
is_space c =
    leb 9 c && leb c 13
    || c == 32
    || c == 0xa0
    || c == 0x1680
    || leb 0x2000 c && leb c 0x200a
    || c == 0x2028
    || c == 0x2029
    || c == 0x202f
    || c == 0x205f
    || c == 0x3000
    || c == 0xfeff

-- `[/:@#\s]`
unfoldable pub is_separator : ℕ → Bool
unfolding is_space
is_separator c = c == b'/' || c == b':' || c == b'@' || c == b'#' || is_space c

unfoldable pub trim_start : (ℕ → Bool) → Text → Text
trim_start p [] = []
trim_start p (c ∷ s) = let rest = trim_start p s in if p c then rest else c ∷ s

abbrev cons_unless_last : Bool → ℕ → Text → Text
cons_unless_last true c [] = []
cons_unless_last false c [] = c ∷ []
cons_unless_last b c (d ∷ s) = c ∷ d ∷ s

unfoldable pub trim_end : (ℕ → Bool) → Text → Text
trim_end p [] = []
trim_end p (c ∷ s) = cons_unless_last (p c) c (trim_end p s)

-- `.replace(/[/:@#\s]+/g, "-")`; the flag says that the character before was of the run.
unfoldable pub dash_separators : Bool → Text → Text
unfolding is_separator
dash_separators in_run [] = []
dash_separators in_run (c ∷ s) =
    let rest = dash_separators (is_separator c) s in
    if is_separator c then (if in_run then rest else b'-' ∷ rest) else c ∷ rest

-- `.replace(/-{2,}/g, "-")`
unfoldable pub squeeze_dashes : Bool → Text → Text
squeeze_dashes after_dash [] = []
squeeze_dashes after_dash (c ∷ s) =
    let rest = squeeze_dashes (c == b'-') s in if c == b'-' && after_dash then rest else c ∷ rest

-- `toLowerCase`, as far as a result of ASCII letters goes: U+212A is the one other character whose
-- lower case is an ASCII letter alone.
unfoldable pub to_lower : Text → Text
to_lower [] = []
to_lower (c ∷ s) =
    (if leb b'A' c && leb c b'Z' then c + 32 else if c == 0x212a then b'k' else c) ∷ to_lower s

abbrev pub broadcast_name : Text
broadcast_name = codes "broadcast"

abbrev pub broker_name : Text
broker_name = codes "broker"

abbrev pub is_dash : ℕ → Bool
is_dash c = c == b'-'

-- `sanitizeSegment`'s `trim` and its replacements, the last of which drops the dashes at the ends.
unfoldable pub squeezed : Text → Text
unfolding trim_start trim_end dash_separators squeeze_dashes is_space
squeezed v =
    squeeze_dashes false (dash_separators false (trim_end is_space (trim_start is_space v)))

unfoldable pub clean_token : Text → Text
unfolding squeezed trim_start trim_end
clean_token v = trim_end is_dash (trim_start is_dash (squeezed v))

unfoldable pub is_reserved : Text → Bool
unfolding to_lower
is_reserved token = text_eq (to_lower token) broadcast_name || text_eq (to_lower token) broker_name

unfoldable pub usable_token : Text → Option Text
usable_token [] = none
usable_token (c ∷ s) = if is_reserved (c ∷ s) then none else some (c ∷ s)

unfoldable pub sanitize_segment : Text → Option Text
unfolding clean_token usable_token is_reserved
sanitize_segment v = usable_token (clean_token v)

abbrev pub is_digit : ℕ → Bool
is_digit c = leb b'0' c && leb c b'9'

unfoldable pub is_suffix : Text → Bool
is_suffix [] = false
is_suffix (c ∷ []) = false
is_suffix (c ∷ d ∷ s) = c == b'#' && all is_digit (d ∷ s)

-- The text before a trailing `#\d+` and that suffix, if there is one.
unfoldable pub split_suffix : Text → Option (Text × Text)
split_suffix [] = none
split_suffix (c ∷ s) =
    let rest = split_suffix s in
    if is_suffix (c ∷ s) then some ([], c ∷ s) else option_else rest none (λ p. some (c ∷ p.0, p.1))

-- `.replace(/#\d+$/, "")`
unfoldable pub strip_suffix : Text → Text
unfolding split_suffix is_suffix
strip_suffix s = option_else (split_suffix s) s (λ p. p.0)

-- What `.` does not match.
abbrev is_line_end : ℕ → Bool
is_line_end c = c == 10 || c == 13 || c == 0x2028 || c == 0x2029

unfoldable pub has_line_end : Text → Bool
has_line_end [] = false
has_line_end (c ∷ s) = is_line_end c || has_line_end s

abbrev pub segment_or_agent : Text → Text
segment_or_agent s = option_else (sanitize_segment s) (codes "agent") (λ t. t)

abbrev pub mesh_name_of : Text → Option (Text × Text) → Text
mesh_name_of raw none = segment_or_agent raw
mesh_name_of raw (some (base, suffix)) = segment_or_agent base ++ suffix

-- `/^(.*?)(#\d+)?$/` does not match a text with a line end in it, unless that stands in the suffix,
-- where none can.
unfoldable pub sanitize_mesh_name : Text → Text
unfolding sanitize_segment split_suffix is_suffix has_line_end
sanitize_mesh_name raw =
    if has_line_end raw then segment_or_agent raw else mesh_name_of raw (split_suffix raw)

-- `raw.slice(raw.lastIndexOf("/") + 1)`, which is `raw` where there is no slash.
unfoldable pub after_last_slash : Text → Text → Text
after_last_slash leaf [] = leaf
after_last_slash leaf (c ∷ s) = after_last_slash (if c == b'/' then s else leaf) s

unfoldable pub migrate_agent_name : Text → Option Text
unfolding after_last_slash strip_suffix trim_start trim_end is_space
migrate_agent_name raw =
    elim (trim_end is_space (trim_start is_space (strip_suffix (after_last_slash raw raw)))) [
      | [] ↦ none
      | c ∷ s ↦ some (c ∷ s)
    ]

unfoldable pub address_in : Text → Text → Text
address_in [] name = name
address_in (c ∷ cwd) name = (c ∷ cwd) ++ (b'@' ∷ name)

-- `composeAddress({pc, cwd, name})`; an absent `pc` is the empty one, which is as falsy.
unfoldable pub compose_address : Text → Text → Text → Text
unfolding address_in
compose_address [] cwd name = address_in cwd name
compose_address (c ∷ pc) cwd name = (c ∷ pc) ++ (b':' ∷ address_in cwd name)

abbrev is_letter : ℕ → Bool
is_letter c = leb b'A' c && leb c b'Z' || leb b'a' c && leb c b'z'

-- `/` or a backslash.
abbrev is_slash : ℕ → Bool
is_slash c = c == b'/' || c == 92

unfoldable pub is_windows_drive_absolute_path : Text → Bool
is_windows_drive_absolute_path (c ∷ d ∷ e ∷ s) = is_letter c && d == b':' && is_slash e
is_windows_drive_absolute_path _ = false

unfoldable pub is_posix_absolute : Text → Bool
is_posix_absolute [] = false
is_posix_absolute (c ∷ s) = c == b'/'

-- `win32.isAbsolute(value) && /^[/\\]{2}/.test(value)`: a first slash makes the path absolute.
unfoldable pub is_unc_path : Text → Bool
is_unc_path (c ∷ d ∷ s) = is_slash c && is_slash d
is_unc_path _ = false

unfoldable pub has_control : Text → Bool
has_control [] = false
has_control (c ∷ s) = c == 0 || c == 13 || c == 10 || has_control s

abbrev pub max_cwd_length : ℕ
max_cwd_length = 4096

abbrev pub max_name_length : ℕ
max_name_length = 256

abbrev pub max_address_length : ℕ
max_address_length = 4352

abbrev pub max_peers_update_entries : ℕ
max_peers_update_entries = 1024

unfoldable pub is_valid_registered_cwd : Text → Bool
unfolding is_posix_absolute is_windows_drive_absolute_path is_unc_path has_control
is_valid_registered_cwd [] = true
is_valid_registered_cwd (c ∷ s) =
    not (ltb max_cwd_length (length (c ∷ s)) || has_control (c ∷ s))
    && (is_posix_absolute (c ∷ s) || is_windows_drive_absolute_path (c ∷ s) || is_unc_path (c ∷ s))

-- `PeerInfo`; a local peer has the empty `pc`.
pub record PeerInfo : Type 0 where
  pub pc : Text
  pub cwd : Text
  pub name : Text
  pub address : Text

unfoldable pub is_bounded_peer_info : Text → Text → Text → Bool
is_bounded_peer_info cwd name address =
    leb (length cwd) max_cwd_length
    && leb (length name) max_name_length
    && leb (length address) max_address_length

unfoldable pub is_bounded_peer_roster : List PeerInfo → Bool
unfolding is_bounded_peer_info
is_bounded_peer_roster infos =
    leb (length infos) max_peers_update_entries
    && all (λ i. is_bounded_peer_info i.cwd i.name i.address) infos

-- Of values: an address is a string.
unfoldable pub is_bounded_peer_addresses : List (Option Text) → Bool
is_bounded_peer_addresses addresses =
    leb (length addresses) max_peers_update_entries
    && all (λ a. option_else a false (λ t. leb (length t) max_address_length)) addresses
