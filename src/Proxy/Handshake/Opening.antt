-- ===== src/Proxy/Handshake/Opening.antt =====
-- The browser's request in any number of reads, none of which ends where `pop` panics.
use exfiltrate.Common.{
  ℕ, zero, suc, ◌≤◌, ◌<◌, List, [], ◌∷◌, ◌++◌, drop, length, subst, arith, ◌≡◌, refl, sym, ap, ◌∙◌,
  All, append_assoc, le→ltb_false, take-append-drop,
}
use exfiltrate.Common.Text.{Text, text}
use exfiltrate.Stream.{
  ok, ReadEvent, ready, WriteEvent, takes, refuses, interrupted, would_block, timed_out, write_zero,
  connection_refused, permission_denied, other, read_events_short,
}
use exfiltrate.Proxy.Frame
use exfiltrate.Proxy.Frame.{send_data}
use exfiltrate.Proxy.Http.{HttpParser, websocket, push, pop}
use exfiltrate.Proxy.Http.Request.{IsLine, AsksUpgrade, join, pop-upgrade, pop_partial}
use exfiltrate.Proxy.Handshake.{
  Handshake, Opened, waiting, opened, refused, died, write_all, response, after_write, after_pop,
  after_read, receive, go_on_opening, do_http_stream,
}

-- Writes that take something, or are tried again.
abbrev pub IsTaken : WriteEvent → Type 0
IsTaken (takes zero) = ⊥
IsTaken (takes (suc n)) = Unit
IsTaken (refuses interrupted) = Unit
IsTaken (refuses _) = ⊥

-- The bytes end in a line that is not at its end, and not blank.
pub record IsPartial (buf : List ℕ) : Type 0 where
  pub lines : List (List ℕ)
  pub partial : List ℕ
  pub whole_lines : All IsLine lines
  pub last_line : IsLine partial
  pub split : buf ≡ join lines ++ partial

-- So they do after each of the reads.
abbrev pub Waits : List ℕ → List (List ℕ) → Type 0
Waits buf [] = Unit
Waits buf (piece ∷ pieces) = IsPartial (buf ++ piece) × Waits (buf ++ piece) pieces

abbrev pub reads_of : List (List ℕ) → List ReadEvent → List ReadEvent
reads_of [] es = es
reads_of (piece ∷ pieces) es = ready piece ∷ reads_of pieces es

abbrev pub bytes_of : List (List ℕ) → List ℕ
bytes_of [] = []
bytes_of (piece ∷ pieces) = piece ++ bytes_of pieces

-- What one call of `read` holds.
abbrev pub FitsRead : List ℕ → Type 0
FitsRead bs = length bs ≤ 1024

pub write_all-IsTaken :
    (es : List WriteEvent) (bs : List ℕ)
    → All IsTaken es
    → (rest : List WriteEvent) × (write_all es bs ≡ (ok tt, rest, bs)) × All IsTaken rest
unfolding write_all
write_all-IsTaken [] bs h = ([], refl, tt)
write_all-IsTaken (e ∷ es) [] h = (e ∷ es, refl, h)
write_all-IsTaken (takes zero ∷ es) (b ∷ bs) h = absurd h.0
write_all-IsTaken (takes (suc n) ∷ es) (b ∷ bs) h =
    let (rest, e, left) = write_all-IsTaken es (drop n bs) h.1 in
    (rest, rw e (ap (λ t. (ok tt, rest, b ∷ t)) (take-append-drop n bs)), left)
write_all-IsTaken (refuses interrupted ∷ es) (b ∷ bs) h = write_all-IsTaken es (b ∷ bs) h.1
write_all-IsTaken (refuses would_block ∷ es) (b ∷ bs) h = absurd h.0
write_all-IsTaken (refuses timed_out ∷ es) (b ∷ bs) h = absurd h.0
write_all-IsTaken (refuses write_zero ∷ es) (b ∷ bs) h = absurd h.0
write_all-IsTaken (refuses connection_refused ∷ es) (b ∷ bs) h = absurd h.0
write_all-IsTaken (refuses permission_denied ∷ es) (b ∷ bs) h = absurd h.0
write_all-IsTaken (refuses (other n) ∷ es) (b ∷ bs) h = absurd h.0

module _ (sha1_base64 : Text → Text) where
  -- The state after a read.
  abbrev after : Handshake → List ℕ → List ReadEvent → Handshake
  after s bs es = record {
    http_parse = push bs s.http_parse;
    stream = record s.stream { reads = es };
  }

  data_received :
      (s : Handshake) (bs : List ℕ) (es : List ReadEvent)
      → FitsRead bs
      → receive sha1_base64 s (ready bs ∷ es)
        ≡ after_pop sha1_base64
            (record s { stream = record s.stream { reads = es } })
            (pop (push bs s.http_parse))
  unfolding receive after_read
  data_received s bs es fits =
      rw (read_events_short 1024 bs es (le→ltb_false 1024 (length bs) fits)) refl

  piece_received :
      (s : Handshake) (bs : List ℕ) (es : List ReadEvent)
      → FitsRead bs
      → IsPartial (s.http_parse.buf ++ bs)
      → receive sha1_base64 s (ready bs ∷ es) ≡ (waiting, after s bs es)
  unfolding after_pop push
  piece_received s bs es fits h =
      data_received s bs es fits
      ∙ rw (pop_partial (push bs s.http_parse) h.lines h.partial h.whole_lines h.last_line h.split)
          refl

  -- What the loop has done when it returns: the stream is a WebSocket whose parser has the bytes
  -- behind the request, and the answer to the key has been sent.
  abbrev pub Opens : Opened × Handshake → List ℕ → List ReadEvent → List ℕ → Type 0
  Opens x leftover es sent =
      (x.0 ≡ opened (record { frame_parser = send_data leftover Frame.new; reads = es }))
      × (x.1.stream.sent ≡ sent)

  answered :
      (s : Handshake) (p : HttpParser) (key : Text) (leftover : List ℕ)
      → All IsTaken s.stream.writes
      → Opens
          (after_pop sha1_base64 s (websocket (record { key = key; leftover_bytes = leftover }), p))
          leftover
          s.stream.reads
          (s.stream.sent ++ response sha1_base64 key)
  unfolding after_pop after_write
  answered s p key leftover h =
      let (rest, e, left) = write_all-IsTaken s.stream.writes (response sha1_base64 key) h in
      rw e (refl, refl)

  opening_step :
      (rounds : ℕ) (s : Handshake) {es : List ReadEvent} {x : Opened × Handshake}
      → s.stream.reads ≡ es
      → receive sha1_base64 s es ≡ x
      → do_http_stream sha1_base64 (suc rounds) s
        ≡ go_on_opening sha1_base64 (do_http_stream sha1_base64 rounds) x
  unfolding do_http_stream
  opening_step rounds s e r =
      ap
        (λ t.
          go_on_opening sha1_base64 (do_http_stream sha1_base64 rounds) (receive sha1_base64 s t))
        e
      ∙ ap (go_on_opening sha1_base64 (do_http_stream sha1_base64 rounds)) r

  opening_waits :
      (rounds : ℕ) (s s' : Handshake) {es : List ReadEvent}
      → s.stream.reads ≡ es
      → receive sha1_base64 s es ≡ (waiting, s')
      → do_http_stream sha1_base64 (suc rounds) s ≡ do_http_stream sha1_base64 rounds s'
  unfolding go_on_opening
  opening_waits rounds s s' e r = opening_step rounds s e r

  -- A result that opens is passed on.
  go_on_opening-Opens :
      (rounds : ℕ) (x : Opened × Handshake) (leftover : List ℕ) (es : List ReadEvent)
      (sent : List ℕ)
      → Opens x leftover es sent
      → Opens (go_on_opening sha1_base64 (do_http_stream sha1_base64 rounds) x) leftover es sent
  unfolding go_on_opening
  go_on_opening-Opens rounds (waiting, s) leftover es sent h = absurd (cc h.0)
  go_on_opening-Opens rounds (refused, s) leftover es sent h = absurd (cc h.0)
  go_on_opening-Opens rounds (died, s) leftover es sent h = absurd (cc h.0)
  go_on_opening-Opens rounds (opened w, s) leftover es sent h = h

  -- The last read: the request is whole.
  last_received :
      (s : Handshake) (last : List ℕ) (es : List ReadEvent) (request_line : List ℕ)
      (lines : List (List ℕ)) (key : Text) (leftover : List ℕ)
      → FitsRead last
      → All IsTaken s.stream.writes
      → All IsLine (request_line ∷ lines)
      → AsksUpgrade request_line lines key
      → s.http_parse.buf ++ last ≡ join (request_line ∷ lines) ++ text "\r\n" ++ leftover
      → Opens
          (receive sha1_base64 s (ready last ∷ es))
          leftover
          es
          (s.stream.sent ++ response sha1_base64 key)
  unfolding push
  last_received s last es request_line lines key leftover fits h l a split =
      subst (λ x. Opens x leftover es (s.stream.sent ++ response sha1_base64 key))
        (sym (
          data_received s last es fits
          ∙ ap (after_pop sha1_base64 (record s { stream = record s.stream { reads = es } }))
              (pop-upgrade (push last s.http_parse) request_line lines key leftover l a split)))
        (answered (record s { stream = record s.stream { reads = es } }) (push last s.http_parse)
          key leftover h)

  -- A request to open a WebSocket that comes in in any number of reads is answered, with the key
  -- that the crates make of its key, and opens the stream with the bytes behind it, where each read
  -- but the last ends inside a line that is not blank, and every write takes something or is
  -- interrupted: once the loop has run as many rounds as there are reads.
  pub do_http_stream-Opens :
      (rounds : ℕ) (s : Handshake) (pieces : List (List ℕ)) (last : List ℕ) (es : List ReadEvent)
      (request_line : List ℕ) (lines : List (List ℕ)) (key : Text) (leftover : List ℕ)
      → s.stream.reads ≡ reads_of pieces (ready last ∷ es)
      → All FitsRead pieces
      → FitsRead last
      → Waits s.http_parse.buf pieces
      → All IsTaken s.stream.writes
      → All IsLine (request_line ∷ lines)
      → AsksUpgrade request_line lines key
      → s.http_parse.buf ++ (bytes_of pieces ++ last)
        ≡ join (request_line ∷ lines) ++ text "\r\n" ++ leftover
      → length pieces < rounds
      → Opens
          (do_http_stream sha1_base64 rounds s)
          leftover
          es
          (s.stream.sent ++ response sha1_base64 key)
  unfolding push
  do_http_stream-Opens zero s pieces last es request_line lines key leftover reads fits fit w h l a
        split enough =
      absurd (omega arith)
  do_http_stream-Opens (suc rounds) s [] last es request_line lines key leftover reads fits fit w h
        l a split enough =
      subst (λ x. Opens x leftover es (s.stream.sent ++ response sha1_base64 key))
        (sym (opening_step rounds s reads refl))
        (go_on_opening-Opens rounds _ leftover es (s.stream.sent ++ response sha1_base64 key)
          (last_received s last es request_line lines key leftover fit h l a split))
  do_http_stream-Opens (suc rounds) s (piece ∷ pieces) last es request_line lines key leftover reads
        fits fit w h l a split enough =
      subst (λ x. Opens x leftover es (s.stream.sent ++ response sha1_base64 key))
        (sym (
          opening_waits rounds s (after s piece (reads_of pieces (ready last ∷ es))) reads
            (piece_received s piece (reads_of pieces (ready last ∷ es)) fits.0 w.0)))
        (do_http_stream-Opens rounds (after s piece (reads_of pieces (ready last ∷ es))) pieces last
          es request_line lines key leftover refl fits.1 fit w.1 h l a
          (append_assoc s.http_parse.buf piece (bytes_of pieces ++ last)
            ∙ ap (λ t. s.http_parse.buf ++ t) (sym (append_assoc piece (bytes_of pieces) last))
            ∙ split)
          (omega arith))
