-- ===== src/Relay/Examples.antt =====
-- A ping of each protocol.
use zsync.Base.{Bytes, codes, text_eq, nat_eq, ok, ◌≡◌, refl, []}
use zsync.Protocol.{ProtoError, bad_magic, FrameType}
use zsync.Protocol
use zsync.Protocol.Frame.{encode_frame}
use zsync.Protocol.Frame.Header.{framed}
use zsync.Relay.{ping, write_frame}
use zsync.Relay.Frames.{relayed}

abbrev ping_bytes : Bytes
ping_bytes = relayed ping (codes "hi")

written : write_frame [] ping (codes "hi") ≡ ok ping_bytes
unfolding write_frame
written = refl

encoded : encode_frame Protocol.ping (codes "hi") ≡ ok (framed Protocol.ping (codes "hi"))
unfolding encode_frame
encoded = refl
