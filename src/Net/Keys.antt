-- ===== src/Net/Keys.antt =====
-- `resolve_relay` of src/net.rs: the key of a peer behind a relay.
use zsync.Base.{
  length, Bytes, text_eq, ◌>>=◌, Result, nat_eq, ok, err, ◌≡◌, refl, Bool, true, none, some,
}
use zsync.Protocol.{Json}
use zsync.Group.Uris.{GroupUri, group_key_len}
use zsync.Group.Keys.{
  GroupFile, KeyDir, KeyError, Base64, save_group_key, load_group_key,
  load_group_key-save_group_key,
}
use zsync.Net.{RelayPeer, PeerTarget}

abbrev pub with_key : PeerTarget → Bytes → Bytes → PeerTarget
with_key target group_id key = record target {
  relay = some (record { group_id = group_id; key = some key });
}

then_ok : (t u : PeerTarget) (r : Result KeyError (Unit {0})) → (r >>= λ _. ok t) ≡ ok u → r ≡ ok tt
then_ok t u (ok a) h = refl
then_ok t u (err e) h = absurd (cc)

module _ (b64 : Base64) (codec : Json GroupFile) where
  -- A key in the address is saved, and one that is not there is loaded.
  unfoldable pub resolve_key :
      KeyDir → PeerTarget → RelayPeer → Bool → KeyDir × Result KeyError PeerTarget
  unfolding save_group_key load_group_key
  resolve_key dir target relay saves = elim relay.key [
    | some key ↦
        let (dir', saved) =
          save_group_key b64 codec dir
            (record {
              group_id = relay.group_id;
              key = some key;
              host = target.host;
              port = target.port;
            })
            saves in
        (dir', (saved >>= λ _. ok target))
    | none ↦ (
      dir,
      (load_group_key b64 codec dir relay.group_id >>= λ key.
          ok (with_key target relay.group_id key)),
    )
  ]

  unfoldable pub resolve_relay : KeyDir → PeerTarget → Bool → KeyDir × Result KeyError PeerTarget
  unfolding resolve_key
  resolve_relay dir target saves = elim target.relay [
    | none ↦ (dir, ok target)
    | some relay ↦ resolve_key dir target relay saves
  ]

  -- An address with a key of 32 bytes is resolved, and its key saved without an error. Then the
  -- same address without its key is resolved to the one with the key, and no file changes.
  pub resolve_relay_again :
      (dir : KeyDir) (target : PeerTarget) (group_id key : Bytes) (saves : Bool)
      → length key ≡ group_key_len
      → let dir' = (resolve_relay dir (with_key target group_id key) true).0 in
        (resolve_relay dir (with_key target group_id key) true).1
          ≡ ok (with_key target group_id key)
        → resolve_relay dir'
            (record target { relay = some (record { group_id = group_id; key = none }) })
            saves
          ≡ (dir', ok (with_key target group_id key))
  unfolding resolve_relay
  resolve_relay_again dir target group_id key saves fits done =
      rw
        (load_group_key-save_group_key b64 codec dir group_id key target.host target.port fits
          saved)
        refl
    where
      uri : GroupUri
      uri = record { group_id = group_id; key = some key; host = target.host; port = target.port }

      saved : (save_group_key b64 codec dir uri true).1 ≡ ok tt
      saved = then_ok _ _ (save_group_key b64 codec dir uri true).1 done
