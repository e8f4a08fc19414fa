-- ===== src/Proxy/Handshake.antt =====
-- exfiltrate_proxy/src/websocket.rs: `do_http_stream`, which takes in the browser's request and
-- opens the WebSocket. SHA-1 and Base64 are third-party crates, and a parameter.
mod Tests
pub mod Opening
use exfiltrate.Common.{ℕ, zero, suc, List, [], ◌∷◌, ◌++◌, take, drop}
use exfiltrate.Common.Text.{Text, text}
use exfiltrate.Stream.{
  Outcome, ok, err, panic, ReadEvent, WriteEvent, takes, refuses, interrupted, write_zero,
  TcpStream, read_events,
}
use exfiltrate.Proxy.Frame.{send_data}
use exfiltrate.Proxy.Frame
use exfiltrate.Proxy.Http.{
  HttpParser, HttpParseResult, WebsocketInfo, not_ready, not_found, out_of_range, rejected,
  websocket, push, pop,
}
use exfiltrate.Proxy.Socket.{Websocket}

pub record Handshake : Type 0 where
  pub http_parse : HttpParser
  pub stream : TcpStream

-- The loop waits for more bytes, or returns `None` or a WebSocket, or panics.
pub data Opened : Type 0 where
  waiting refused died : Opened
  opened : Websocket → Opened

-- `Write::write_all` of the standard library: it tries again only after an interruption.
unfoldable pub write_all : List WriteEvent → List ℕ → Outcome (Unit {0}) × List WriteEvent × List ℕ
write_all [] buf = (ok tt, [], buf)
write_all (e ∷ es) [] = (ok tt, e ∷ es, [])
write_all (takes zero ∷ es) (b ∷ bs) = (err write_zero, es, [])
write_all (takes (suc n) ∷ es) (b ∷ bs) =
    let (r, rest, sent) = write_all es (drop n bs) in (r, rest, b ∷ (take n bs ++ sent))
write_all (refuses interrupted ∷ es) (b ∷ bs) = write_all es (b ∷ bs)
write_all (refuses e ∷ es) (b ∷ bs) = (err e, es, [])

module _ (sha1_base64 : Text → Text) where
  unfoldable pub response : Text → Text
  response key =
      text "HTTP/1.1 101 Switching Protocols\r\n"
      ++ (text "Upgrade: websocket\r\n"
          ++ (text "Connection: Upgrade\r\n"
              ++ (text "Sec-WebSocket-Accept: "
                  ++ (sha1_base64 (key ++ text "258EAFA5-E914-47DA-95CA-C5AB0DC85B11")
                      ++ text "\r\n\r\n"))))

  -- The end of a write that succeeds; the other ends panic at `unwrap`.
  unfoldable pub after_write :
      Handshake → WebsocketInfo → Outcome (Unit {0}) × List WriteEvent × List ℕ → Opened × Handshake
  after_write s info (ok _, rest, sent) = (
    opened
        (record { frame_parser = send_data info.leftover_bytes Frame.new; reads = s.stream.reads }),
    record s { stream = record s.stream { writes = rest; sent = s.stream.sent ++ sent } },
  )
  after_write s info (_, rest, sent) =
      (died, record s { stream = record s.stream { writes = rest; sent = s.stream.sent ++ sent } })

  unfoldable pub after_pop : Handshake → HttpParseResult × HttpParser → Opened × Handshake
  after_pop s (not_ready, p) = (waiting, record s { http_parse = p })
  after_pop s (rejected reason, p) = (refused, record s { http_parse = p })
  after_pop s (not_found, p) = (refused, record s { http_parse = p })
  after_pop s (out_of_range, p) = (died, record s { http_parse = p })
  after_pop s (websocket info, p) =
      after_write (record s { http_parse = p }) info (write_all s.stream.writes (response info.key))

  unfoldable pub after_read : Handshake → Outcome (List ℕ) × List ReadEvent → Opened × Handshake
  after_read s (ok data_bytes, rest) =
      after_pop (record s { stream = record s.stream { reads = rest } })
        (pop (push data_bytes s.http_parse))
  after_read s (_, rest) = (refused, record s { stream = record s.stream { reads = rest } })

  -- The stream blocks: with nothing to come the call of `read` does not return.
  unfoldable pub receive : Handshake → List ReadEvent → Opened × Handshake
  receive s [] = (waiting, s)
  receive s (e ∷ es) = after_read s (read_events 1024 (e ∷ es))

  unfoldable pub go_on_opening :
      (Handshake → Opened × Handshake) → Opened × Handshake → Opened × Handshake
  go_on_opening next (waiting, s) = next s
  go_on_opening next (result, s) = (result, s)

  -- `do_http_stream` for a number of rounds, or until it returns.
  unfoldable pub do_http_stream : ℕ → Handshake → Opened × Handshake
  do_http_stream zero s = (waiting, s)
  do_http_stream (suc rounds) s = go_on_opening (do_http_stream rounds) (receive s s.stream.reads)
