-- ===== src/Proxy/Socket.antt =====
-- exfiltrate_proxy/src/websocket.rs: the WebSocket of the browser once the handshake is done. The
-- clock and the progress messages on stderr are not modelled.
mod Tests
pub mod Reading
pub mod Delivery
pub mod Messages
pub mod Arrivals
use exfiltrate.Common.{ℕ, zero, suc, List, [], ◌∷◌, false}
use exfiltrate.Stream.{
  Outcome, ok, err, panic, IoError, would_block, timed_out, ReadEvent, read_events,
}
use exfiltrate.Proxy.Frame.{
  WebsocketFrameParser, WebsocketFrame, FrameError, too_short, closed, rejected, Parsed, complete,
  failed, panicked, stuck, parse, new, send_data, to_bytes,
}

pub record Websocket : Type 0 where
  pub frame_parser : WebsocketFrameParser
  pub reads : List ReadEvent

-- The `Result` of `try_parse_frame`, or a panic.
pub data Tried : Type 0 where
  data_of : List ℕ → Tried
  refused : FrameError → Tried
  died : Tried

-- Too few bytes count as an empty frame, and a rejected frame throws all buffered bytes away.
judge : Websocket → Parsed × WebsocketFrameParser → Tried × Websocket
judge w (failed too_short, p) = (data_of [], record w { frame_parser = p })
judge w (failed (rejected opcode), p) = (refused (rejected opcode), record w { frame_parser = new })
judge w (failed closed, p) = (refused closed, record w { frame_parser = p })
judge w (complete frame, p) = (data_of frame.payload, record w { frame_parser = p })
judge w (panicked, p) = (died, record w { frame_parser = p })
judge w (stuck, p) = (died, record w { frame_parser = p })

unfoldable pub try_parse_frame : Websocket → Tried × Websocket
unfolding judge
try_parse_frame w = judge w (parse w.frame_parser)

-- Whether `read` returns, and what.
pub data Progress : Type 0 where
  waiting crashed : Progress
  returned : List ℕ → Progress
  failed_with : IoError → Progress

-- A read that times out is tried again.
take_read : Websocket → Outcome (List ℕ) × List ReadEvent → Progress × Websocket
take_read w (ok bs, es) =
    (waiting, record { frame_parser = send_data bs w.frame_parser; reads = es })
take_read w (err would_block, es) = (waiting, record w { reads = es })
take_read w (err timed_out, es) = (waiting, record w { reads = es })
take_read w (err e, es) = (failed_with e, record w { reads = es })
take_read w (panic, es) = (crashed, record w { reads = es })

-- Only a frame that is not empty is returned; every error of the parser is passed over.
after_try : Tried × Websocket → Progress × Websocket
unfolding take_read
after_try (data_of (b ∷ bs), w) = (returned (b ∷ bs), w)
after_try (data_of [], w) = take_read w (read_events 1024 w.reads)
after_try (refused e, w) = take_read w (read_events 1024 w.reads)
after_try (died, w) = (crashed, w)

unfoldable pub read_round : Websocket → Progress × Websocket
unfolding after_try
read_round w = after_try (try_parse_frame w)

go_on_reading : (Websocket → Progress × Websocket) → Progress × Websocket → Progress × Websocket
go_on_reading next (waiting, w) = next w
go_on_reading next (crashed, w) = (crashed, w)
go_on_reading next (returned bs, w) = (returned bs, w)
go_on_reading next (failed_with e, w) = (failed_with e, w)

-- `Websocket::read` for a number of rounds of its loop, or until it returns.
unfoldable pub read : ℕ → Websocket → Progress × Websocket
unfolding go_on_reading
read zero w = (waiting, w)
read (suc rounds) w = go_on_reading (read rounds) (read_round w)

-- The write loop of `do_ws_stream`: one frame for each message of the channel.
unfoldable pub ws_frame : List ℕ → Outcome (List ℕ)
ws_frame message = to_bytes (record { payload = message; mask = false })
