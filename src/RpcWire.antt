-- ===== src/RpcWire.antt =====
-- exfiltrate_internal/src/wire.rs: a message of the protocol as a frame on the stream.
use exfiltrate.Common.{ℕ, ◌^◌, ◌<◌, ◌++◌, List, length, All, ◌≡◌, refl}
use exfiltrate.Stream.{Outcome, ok, panic, TcpStream, WriteEvent, ReadEvent}
use exfiltrate.Wire.{send_socket_frame}
use exfiltrate.Wire.Framing.{frame}
use exfiltrate.Wire.Writing.{
  IsTolerated, send_socket_frame-IsTolerated, send_socket_frame_any_reads,
}
use exfiltrate.Rpc.{Codec, Encoded, encoded, refused, Rpc}

-- `rmp_serde::to_vec(&msg).unwrap()`, then the frame.
send_encoded : Encoded → TcpStream → Outcome (Unit {0}) × TcpStream
send_encoded (encoded msgpack_bytes) s = send_socket_frame msgpack_bytes s
send_encoded (refused e) s = (panic, s)

pub send_socket_rpc : Codec → Rpc → TcpStream → Outcome (Unit {0}) × TcpStream
unfolding send_encoded
send_socket_rpc codec msg s = send_encoded (codec.rpc_to_vec msg) s

-- Where the message can be serialized, to less than 2 ^ 32 bytes, and the writes are tolerated, its
-- frame is put on the stream.
pub send_socket_rpc-IsTolerated :
    (codec : Codec) (msg : Rpc) (s : TcpStream) {bs : List ℕ}
    → codec.rpc_to_vec msg ≡ encoded bs
    → length bs < 2 ^ 32
    → All IsTolerated s.writes
    → (rest : List WriteEvent) × (send_socket_rpc codec msg s
        ≡ (ok tt, record s { writes = rest; sent = s.sent ++ frame bs }))
      × All IsTolerated rest
unfolding send_socket_rpc
send_socket_rpc-IsTolerated codec msg s {bs} e short h =
    let (rest, p, quiet) = send_socket_frame-IsTolerated s bs short h in (rest, rw e p, quiet)

pub send_socket_rpc_any_reads :
    (codec : Codec) (msg : Rpc) (es : List ReadEvent) (s : TcpStream)
    → send_socket_rpc codec msg (record s { reads = es })
      ≡ ((send_socket_rpc codec msg s).0, record (send_socket_rpc codec msg s).1 { reads = es })
unfolding send_socket_rpc send_encoded
send_socket_rpc_any_reads codec msg es s = go (codec.rpc_to_vec msg)
  where
    go :
        (x : Encoded)
        → send_encoded x (record s { reads = es })
          ≡ ((send_encoded x s).0, record (send_encoded x s).1 { reads = es })
    go (encoded bs) = send_socket_frame_any_reads bs es s
    go (refused e) = refl
