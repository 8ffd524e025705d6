-- ===== src/Group/Uris.antt =====
-- The URIs of src/group.rs, and the addresses in them. The base64 of the key and the test for an
-- IPv6 address are arguments.
use zsync.Base.{
  ltb, leb, if◌then◌else◌, length, take, is_empty, any, keep, Bytes, Text, codes, text_eq, ◌>>=◌,
  ◌>>◌, fail_if, or_fail, Result, ◌==◌, nat_eq, ok, err, ℕ, ◌+◌, ◌-◌, ◌*◌, ◌/◌, ◌%◌, Bool, not,
  ◌&&◌, ◌||◌, Option, none, some, [], ◌∷◌, ◌++◌,
}
use zsync.Base.Paths.{split_once, rsplit_once}
use zsync.Protocol.{hex_encode}
use zsync.Group.{GroupError, is_whitespace, parse_group_id, group_id_len}

abbrev pub default_port : ℕ
default_port = 43721

abbrev pub group_key_len : ℕ
group_key_len = 32

pub record GroupUri : Type 0 where
  pub group_id : Bytes
  pub key : Option Bytes
  pub host : Text
  pub port : ℕ

pub data UriError : Type 0 where
  no_scheme no_host bad_key short_key unspecified_host key_missing : UriError
  bad_id : GroupError → UriError
  unclosed_bracket no_port_after_bracket invalid_port : UriError

-- `str::strip_prefix`.
abbrev pub strip_prefix : Text → Text → Option Text
strip_prefix [] s = some s
strip_prefix (p ∷ ps) [] = none
strip_prefix (p ∷ ps) (c ∷ s) = if c == p then strip_prefix ps s else none

abbrev pub decimal : ℕ → Text → Option ℕ
decimal acc [] = some acc
decimal acc (c ∷ s) =
    let n = acc * 10 + (c - b'0') in
    let rest = decimal n s in if leb b'0' c && leb c b'9' && ltb n 65536 then rest else none

-- `str::parse::<u16>`, which takes a plus sign.
unfoldable pub parse_u16 : Text → Option ℕ
parse_u16 [] = none
parse_u16 (c ∷ []) = if c == b'+' then none else decimal 0 (c ∷ [])
parse_u16 (c ∷ d ∷ s) = if c == b'+' then decimal 0 (d ∷ s) else decimal 0 (c ∷ d ∷ s)

-- A u16 in decimal digits.
unfoldable pub show_u16 : ℕ → Text
show_u16 n =
    let digit : ℕ → ℕ = λ k. b'0' + n / k % 10 in
    if ltb n 10
    then digit 1 ∷ []
    else if ltb n 100
    then digit 10 ∷ digit 1 ∷ []
    else if ltb n 1000
    then digit 100 ∷ digit 10 ∷ digit 1 ∷ []
    else if ltb n 10000
    then digit 1000 ∷ digit 100 ∷ digit 10 ∷ digit 1 ∷ []
    else digit 10000 ∷ digit 1000 ∷ digit 100 ∷ digit 10 ∷ digit 1 ∷ []

-- The address in brackets, behind the opening one.
unfoldable pub bracketed : Text → Result UriError (Text × ℕ)
unfolding parse_u16
bracketed rest = do
  (host, after) ← or_fail (split_once b']' rest) unclosed_bracket
  if is_empty after then ok (host, default_port) else (do
    port ← or_fail (strip_prefix (codes ":") after) no_port_after_bracket
    n ← or_fail (parse_u16 port) invalid_port
    ok (host, n))

-- `rfind(':')`, where no other colon stands before it.
unfoldable pub split_host_port : Text → Result UriError (Text × ℕ)
unfolding bracketed parse_u16
split_host_port s = elim (strip_prefix (codes "[") s) [
  | some rest ↦ bracketed rest
  | none ↦ elim (rsplit_once b':' s) [
    | none ↦ ok (s, default_port)
    | some (host, port) ↦
        if any (λ c. c == b':') host
        then ok (s, default_port)
        else (or_fail (parse_u16 port) invalid_port >>= λ n. ok (host, n))
  ]
]

-- `group_id_from_secret`; `sha256` is the digest.
unfoldable pub group_id_from_secret : (Bytes → Bytes) → Bytes → Bytes
group_id_from_secret sha256 secret = take group_id_len (sha256 (codes "zsync-gid" ++ secret))

module _ (is_ipv6 : Text → Bool) where
  unfoldable pub format_host_port : Text → ℕ → Text
  unfolding show_u16
  format_host_port host port =
      if is_ipv6 host
      then codes "[" ++ host ++ codes "]:" ++ show_u16 port
      else host ++ codes ":" ++ show_u16 port

  unfoldable pub redacted_uri : GroupUri → Text
  redacted_uri g =
      codes "zsync://" ++ hex_encode g.group_id ++ codes "@" ++ format_host_port g.host g.port

  unfoldable pub to_uri : (Bytes → Text) → GroupUri → Result UriError Text
  to_uri b64_encode g = do
    key ← or_fail g.key key_missing
    ok (
        codes "zsync://"
        ++ hex_encode g.group_id
        ++ codes ":"
        ++ b64_encode key
        ++ codes "@"
        ++ format_host_port g.host g.port)

module _ (b64_decode : Text → Option Bytes) where
  -- The part before the host: the group id, and the key if there is one.
  unfoldable pub parse_creds : Text → Result UriError (Text × Option Bytes)
  parse_creds creds = elim (split_once b':' creds) [
    | none ↦ ok (creds, none)
    | some (gid, key_b64) ↦ (do
      key ← or_fail (b64_decode key_b64) bad_key
      fail_if (not (length key == group_key_len)) short_key
      ok (gid, some key))
  ]

  unfoldable pub parse_group_uri : Text → Result UriError GroupUri
  parse_group_uri raw = do
    rest ←
        or_fail (strip_prefix (codes "zsync://") (keep (λ c. not (is_whitespace c)) raw)) no_scheme
    (creds, hostport) ← or_fail (rsplit_once b'@' rest) no_host
    (gid_hex, key) ← parse_creds creds
    group_id ← elim (parse_group_id gid_hex) [ err e ↦ err (bad_id e) | ok id ↦ ok id ]
    (host, port) ← split_host_port hostport
    fail_if (is_empty host || host == codes "0.0.0.0" || host == codes "::") unspecified_host
    ok (record { group_id = group_id; key = key; host = host; port = port })
