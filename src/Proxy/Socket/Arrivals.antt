-- ===== src/Proxy/Socket/Arrivals.antt =====
-- From the browser's frames to what `Websocket::read` returns.
use exfiltrate.Common.{ℕ, zero, suc, ◌<◌, List, [], ◌∷◌, ◌++◌, All, true}
use exfiltrate.Common.{arith, ◌≡◌, ◌≢◌, refl, sym, ap, subst, ◌∙◌}
use exfiltrate.Stream.{available}
use exfiltrate.Proxy.Frame.{
  WebsocketFrameParser, WebsocketFrame, Parsed, complete, failed, too_short, parse, send_data,
}
use exfiltrate.Proxy.Frame.Fragments.{Fragment, IsFragment, wire}
use exfiltrate.Proxy.Frame.Messages.{IsOpen, wires, payloads, finished, parse_message}
use exfiltrate.Proxy.Socket.{Websocket, returned, read}
use exfiltrate.Proxy.Socket.Delivery.{
  IsPatient, Gives, Delivers, work_left, got, waits, parse_nothing,
}
use exfiltrate.Proxy.Socket.Messages.{Round-cases, read_returned, read_waited}

-- A message of the browser: frames that are followed by others, and the last one.
pub record Message : Type 0 where
  pub before : List Fragment
  pub last : Fragment

pub record IsMessage (m : Message) : Type 0 where
  pub opened : All IsOpen m.before
  pub fragment : IsFragment m.last
  pub final : m.last.fin ≡ true
  pub some_bytes : payloads m.before ++ m.last.payload ≢ []

abbrev pub text_of : Message → List ℕ
text_of m = payloads m.before ++ m.last.payload

abbrev pub texts : List Message → List (List ℕ)
texts [] = []
texts (m ∷ ms) = text_of m ∷ texts ms

abbrev pub bytes_of : List Message → List ℕ
bytes_of [] = []
bytes_of (m ∷ ms) = wires m.before ++ (wire m.last ++ bytes_of ms)

pub bytes_of-Gives :
    (ms : List Message) (p : WebsocketFrameParser)
    → p.parsed_data ≡ []
    → p.unparsed_data ≡ bytes_of ms
    → All IsMessage ms
    → Gives p (texts ms)
bytes_of-Gives [] p fresh e hs = e
bytes_of-Gives (m ∷ ms) p fresh e hs = (
  m.last.masked,
  finished (bytes_of ms),
  parse_message p m.before m.last (bytes_of ms) hs.0.opened hs.0.fragment hs.0.final e
      ∙ ap
          (λ t. (
            complete (record { payload = t ++ text_of m; mask = m.last.masked }),
            finished (bytes_of ms),
          ))
          fresh,
  hs.0.some_bytes,
  bytes_of-Gives ms (finished (bytes_of ms)) refl refl hs.1,
)

-- `read` returns the next message once it has run enough rounds.
pub returns_in_time :
    (rounds : ℕ) (w : Websocket) (message : List ℕ) (rest : List (List ℕ))
    → Delivers w (message ∷ rest)
    → work_left w < rounds
    → (w' : Websocket) × (read rounds w ≡ (returned message, w')) × Delivers w' rest
returns_in_time zero w message rest d enough = absurd (omega arith)
returns_in_time (suc rounds) w message rest d enough = elim (Round-cases w (message ∷ rest) d) [
  | got message' rest' w' e r d' ↦
      let (same, same_rest) = heads e in
      (
        w',
        read_returned rounds w r (ap (λ t. (returned t, w')) (sym same)),
        subst (Delivers w') (sym same_rest) d',
      )
  | waits w' r d' less ↦
      let (w'', p, d'') =
        returns_in_time rounds w' message rest d' (omega (arith, less (λ h. cc))) in
      (w'', read_waited rounds w r ∙ p, d'')
]
  where
    heads : {m m' : List ℕ} {ms ms' : List (List ℕ)} → m ∷ ms ≡ m' ∷ ms' → (m ≡ m') × (ms ≡ ms')
    heads h = (cc, cc)

-- However the browser cuts its messages into frames, masked or not, and however the frames' bytes are
-- cut into reads, also by reads that time out: `Websocket::read` returns the next message whole and
-- unmasked, once it has run more rounds than there are bytes and reads to come, and what it leaves
-- are the messages behind it. The buffer and the reads together are whole messages, none of them
-- without bytes.
pub read_lem :
    (rounds : ℕ) (w : Websocket) (m : Message) (ms : List Message)
    → w.frame_parser.parsed_data ≡ []
    → w.frame_parser.unparsed_data ++ available w.reads ≡ bytes_of (m ∷ ms)
    → All IsMessage (m ∷ ms)
    → All IsPatient w.reads
    → work_left w < rounds
    → (w' : Websocket) × (read rounds w ≡ (returned (text_of m), w')) × Delivers w' (texts ms)
unfolding send_data
read_lem rounds w m ms fresh e hs ps enough =
    returns_in_time rounds w (text_of m) (texts ms)
      (record {
        gives = bytes_of-Gives (m ∷ ms) (send_data (available w.reads) w.frame_parser) fresh e hs;
        patient = ps;
      })
      enough

-- Where all bytes have been read and used, no message is left.
pub none_left :
    (w : Websocket) (messages : List (List ℕ))
    → Delivers w messages
    → w.frame_parser.unparsed_data ≡ []
    → available w.reads ≡ []
    → messages ≡ []
none_left w [] d used over = refl
none_left w (message ∷ rest) d used over = absurd (differs (sym short ∙ d.gives.2))
  where
    short :
        parse (send_data (available w.reads) w.frame_parser)
        ≡ (failed too_short, send_data (available w.reads) w.frame_parser)
    short = parse_nothing (send_data (available w.reads) w.frame_parser) (
        unfold send_data in
        (ap (λ t. w.frame_parser.unparsed_data ++ t) over ∙ ap (λ t. t ++ []) used))

    differs :
        {f : WebsocketFrame} {p q : WebsocketFrameParser}
        → ◌≢◌ {A = Parsed × WebsocketFrameParser} (failed too_short, p) (complete f, q)
    differs h = cc
