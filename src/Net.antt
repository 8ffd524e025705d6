-- ===== src/Net.antt =====
-- src/net.rs: the addresses of peers. The base64 of a key and the test for an IPv6 address are
-- arguments.
pub mod Keys
use zsync.Base.{
  if◌then◌else◌, is_empty, any, keep, Bytes, Text, codes, text_eq, starts_with, ◌>>=◌, ◌>>◌,
  fail_if, Result, ◌==◌, nat_eq, ok, err, ℕ, Bool, not, ◌||◌, Option, none, some, ◌++◌,
}
use zsync.Group.{is_whitespace}
use zsync.Group.Uris
use zsync.Group.Uris.{GroupUri, UriError, strip_prefix, show_u16, redacted_uri, parse_group_uri}

pub record RelayPeer : Type 0 where
  pub group_id : Bytes
  pub key : Option Bytes

pub record PeerTarget : Type 0 where
  pub uri : Text
  pub host : Text
  pub port : ℕ
  pub relay : Option RelayPeer

pub data PeerError : Type 0 where
  empty_address ssh_gone iroh_gone missing_host : PeerError
  bad_uri : UriError → PeerError

-- The same code as in group.rs.
unfoldable pub split_host_port : Text → Result UriError (Text × ℕ)
split_host_port s = Uris.split_host_port s

unfoldable pub format_host_port : Text → ℕ → Text
format_host_port host port =
    if any (λ c. c == b':') host
    then codes "[" ++ host ++ codes "]:" ++ show_u16 port
    else host ++ codes ":" ++ show_u16 port

module _ (is_ipv6 : Text → Bool) (b64_decode : Text → Option Bytes) where
  unfoldable pub peer_from_group : GroupUri → PeerTarget
  peer_from_group g = record {
    uri = redacted_uri is_ipv6 g;
    host = g.host;
    port = g.port;
    relay = some (record { group_id = g.group_id; key = g.key });
  }

  -- A plain address, with or without its scheme.
  unfoldable pub parse_tcp : Text → Result PeerError PeerTarget
  parse_tcp raw = do
    let s : Text = elim (strip_prefix (codes "tcp://") raw) [ none ↦ raw | some rest ↦ rest ]
    (host, port) ← elim (split_host_port s) [ err e ↦ err (bad_uri e) | ok p ↦ ok p ]
    fail_if (is_empty host) missing_host
    ok (record { uri = format_host_port host port; host = host; port = port; relay = none })

  unfoldable pub parse_peer : Text → Result PeerError PeerTarget
  parse_peer text =
      let raw = keep (λ c. not (is_whitespace c)) text in
      if is_empty raw
      then err empty_address
      else if starts_with raw (codes "ssh://")
      then err ssh_gone
      else if starts_with raw (codes "iroh://") || starts_with raw (codes "endpoint")
      then err iroh_gone
      else if starts_with raw (codes "zsync://")
      then elim (parse_group_uri b64_decode raw) [
        | err e ↦ err (bad_uri e)
        | ok g ↦ ok (peer_from_group g)
      ]
      else parse_tcp raw

  unfoldable pub display_uri : Text → Text
  display_uri uri = elim (parse_group_uri b64_decode uri) [
    | err e ↦ uri
    | ok g ↦ redacted_uri is_ipv6 g
  ]
