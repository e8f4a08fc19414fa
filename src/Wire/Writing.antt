-- ===== src/Wire/Writing.antt =====
-- What `write_all_robust` and `send_socket_frame` leave on the stream, for every script of answers
-- that the system may give.
use exfiltrate.Common.{ℕ, suc, zero, ◌+◌, ◌^◌, ◌≤◌, ◌<◌, List, [], ◌∷◌, ◌++◌, length, take, drop}
use exfiltrate.Common.{
  arith, ◌≡◌, refl, sym, ap, subst, ◌∙◌, All, append_assoc, append-nil, take-append-drop, lt→ltb,
  le→ltb_false, length-append, Bool-cases, ltb, inl, inr,
}
use mathlib.Core.Logic.{◌↔◌}
use exfiltrate.Common.Bytes.{to_be_bytes}
use exfiltrate.Stream.{
  ReadEvent, Outcome, ok, err, panic, IoError, TcpStream, WriteEvent, takes, refuses, interrupted,
  would_block, timed_out, write_zero, connection_refused, permission_denied, other,
}
use exfiltrate.Wire.{write_all_events, write_all_robust, send_payload, send_socket_frame, pop_msg}
use exfiltrate.Wire.Framing.{frame, pop_msg_too_large}

-- The writes that the loop survives.
abbrev pub IsTolerated : WriteEvent → Type 0
IsTolerated (takes zero) = ⊥
IsTolerated (takes (suc n)) = Unit
IsTolerated (refuses interrupted) = Unit
IsTolerated (refuses would_block) = Unit
IsTolerated _ = ⊥

abbrev Sends : List WriteEvent → List ℕ → List ℕ → Type 0
Sends events sent buf =
    (rest : List WriteEvent) × (write_all_events events sent buf ≡ (ok tt, rest, sent ++ buf))
    × All IsTolerated rest

events_taken :
    (events : List WriteEvent) (sent buf : List ℕ) → All IsTolerated events → Sends events sent buf
unfolding write_all_events
events_taken [] sent [] h = ([], rw append-nil, tt)
events_taken (e ∷ events) sent [] h = (e ∷ events, rw append-nil, h)
events_taken [] sent (b ∷ bs) h = ([], refl, tt)
events_taken (takes zero ∷ events) sent (b ∷ bs) h = absurd h.0
events_taken (takes (suc n) ∷ events) sent (b ∷ bs) h =
    let (rest, e, quiet) =
      events_taken events (sent ++ take (suc n) (b ∷ bs)) (drop (suc n) (b ∷ bs)) h.1 in
    (
      rest,
      e
          ∙ ap (λ t. (ok tt, rest, t))
              (append_assoc sent (take (suc n) (b ∷ bs)) (drop (suc n) (b ∷ bs))
                ∙ ap (λ t. sent ++ t) (take-append-drop (suc n) (b ∷ bs))),
      quiet,
    )
events_taken (refuses interrupted ∷ events) sent (b ∷ bs) h = events_taken events sent (b ∷ bs) h.1
events_taken (refuses would_block ∷ events) sent (b ∷ bs) h = events_taken events sent (b ∷ bs) h.1
events_taken (refuses timed_out ∷ events) sent (b ∷ bs) h = absurd h.0
events_taken (refuses write_zero ∷ events) sent (b ∷ bs) h = absurd h.0
events_taken (refuses connection_refused ∷ events) sent (b ∷ bs) h = absurd h.0
events_taken (refuses permission_denied ∷ events) sent (b ∷ bs) h = absurd h.0
events_taken (refuses (other n) ∷ events) sent (b ∷ bs) h = absurd h.0

-- Whatever the system answers, a first part of the buffer is on the stream; it is the whole buffer
-- exactly when the loop succeeds.
abbrev pub PartSent : Outcome (Unit {0}) → List ℕ → List ℕ → List ℕ → Type 0
PartSent r sent sent' buf =
    (front : List ℕ) × (back : List ℕ) × (buf ≡ front ++ back)
    × (sent' ≡ sent ++ front)
    × ((r ≡ ok tt) ↔ (back ≡ []))

abbrev EventsPartSent : Outcome (Unit {0}) × List WriteEvent × List ℕ → List ℕ → List ℕ → Type 0
EventsPartSent x sent buf = PartSent x.0 sent x.2 buf

none_sent :
    (e : IoError) (sent : List ℕ) (b : ℕ) (bs : List ℕ) → PartSent (err e) sent sent (b ∷ bs)
none_sent e sent b bs = ([], b ∷ bs, refl, sym (append-nil sent), ((λ e. cc), (λ e. cc)))

more_sent :
    (r : Outcome (Unit {0})) (sent sent' front buf : List ℕ)
    → PartSent r (sent ++ front) sent' buf
    → PartSent r sent sent' (front ++ buf)
more_sent r sent sent' front buf (f, b, e, p, exactly) = (
  front ++ f,
  b,
  ap (λ t. front ++ t) e ∙ sym (append_assoc front f b),
  p ∙ append_assoc sent front f,
  exactly,
)

write_all_events_part :
    (events : List WriteEvent) (sent buf : List ℕ)
    → EventsPartSent (write_all_events events sent buf) sent buf
unfolding write_all_events
write_all_events_part [] sent [] = ([], [], refl, sym (append-nil sent), ((λ _. refl), (λ _. refl)))
write_all_events_part (e ∷ events) sent [] =
    ([], [], refl, sym (append-nil sent), ((λ _. refl), (λ _. refl)))
write_all_events_part [] sent (b ∷ bs) =
    (b ∷ bs, [], sym (append-nil (b ∷ bs)), refl, ((λ _. refl), (λ _. refl)))
write_all_events_part (takes zero ∷ events) sent (b ∷ bs) = none_sent write_zero sent b bs
write_all_events_part (takes (suc n) ∷ events) sent (b ∷ bs) =
    let r = write_all_events events (sent ++ take (suc n) (b ∷ bs)) (drop (suc n) (b ∷ bs)) in
    subst (λ t. PartSent r.0 sent r.2 t) (take-append-drop (suc n) (b ∷ bs))
      (more_sent r.0 sent r.2 (take (suc n) (b ∷ bs)) (drop (suc n) (b ∷ bs))
        (write_all_events_part events (sent ++ take (suc n) (b ∷ bs)) (drop (suc n) (b ∷ bs))))
write_all_events_part (refuses interrupted ∷ events) sent (b ∷ bs) =
    write_all_events_part events sent (b ∷ bs)
write_all_events_part (refuses would_block ∷ events) sent (b ∷ bs) =
    write_all_events_part events sent (b ∷ bs)
write_all_events_part (refuses e ∷ events) sent (b ∷ bs) = none_sent _ sent b bs

-- Whatever the system answers to the writes, `write_all_robust` puts a first part of the buffer on
-- the stream behind what was there, and nothing else; that part is the whole buffer exactly when
-- it returns `Ok`.
pub write_all_robust_part :
    (s : TcpStream) (buf : List ℕ)
    → PartSent (write_all_robust s buf).0 s.sent (write_all_robust s buf).1.sent buf
unfolding write_all_robust
write_all_robust_part s buf = write_all_events_part s.writes s.sent buf

-- A write that returns `Ok` has put the whole buffer on the stream.
write_all_robust_ok :
    (s : TcpStream) (buf : List ℕ) {s' : TcpStream}
    → write_all_robust s buf ≡ (ok tt, s')
    → s'.sent ≡ s.sent ++ buf
write_all_robust_ok s buf {s'} h =
    let (front, back, split, put, exactly) = write_all_robust_part s buf in
    let nothing_left : back ≡ [] = exactly.0 (ap (λ x. x.0) h) in
    let all : buf ≡ front = split ∙ ap (λ t. front ++ t) nothing_left ∙ append-nil front in
    sym (ap (λ x. x.1.sent) h) ∙ put ∙ ap (λ t. s.sent ++ t) (sym all)

payload_sent :
    (s : TcpStream) (header msg : List ℕ) (x : Outcome (Unit {0}) × TcpStream) {s' : TcpStream}
    → write_all_robust s header ≡ x
    → send_payload msg x ≡ (ok tt, s')
    → s'.sent ≡ s.sent ++ (header ++ msg)
unfolding send_payload
payload_sent s header msg (ok _, s₁) e h =
    write_all_robust_ok s₁ msg h
    ∙ ap (λ t. t ++ msg) (write_all_robust_ok s header e)
    ∙ append_assoc s.sent header msg
payload_sent s header msg (err f, s₁) e h = cc
payload_sent s header msg (panic, s₁) e h = cc

-- Where `send_socket_frame` returns `Ok`, the whole frame is on the stream.
pub send_socket_frame_ok :
    (s : TcpStream) (msg : List ℕ) {s' : TcpStream}
    → send_socket_frame msg s ≡ (ok tt, s')
    → s'.sent ≡ s.sent ++ frame msg
unfolding send_socket_frame
send_socket_frame_ok s msg {s'} h = elim (Bool-cases (ltb (length msg) (2 ^ 32))) [
  | inl fits ↦ payload_sent s (to_be_bytes 4 (length msg)) msg _ refl (rw fits at h)
  | inr long ↦ absurd (not_panic (ap (λ (x : Outcome (Unit {0}) × TcpStream). x.0) (rw long at h)))
]
  where
    not_panic : ◌≡◌ {A = Outcome (Unit {0})} panic (ok tt) → ⊥
    not_panic e = cc

payload_reads :
    (msg : List ℕ) (x : Outcome (Unit {0}) × TcpStream) → (send_payload msg x).1.reads ≡ x.1.reads
unfolding send_payload write_all_robust
payload_reads msg (ok _, s) = refl
payload_reads msg (err e, s) = refl
payload_reads msg (panic, s) = refl

-- Writing leaves what is to be read.
pub send_socket_frame_reads :
    (msg : List ℕ) (s : TcpStream) → (send_socket_frame msg s).1.reads ≡ s.reads
unfolding send_socket_frame write_all_robust
send_socket_frame_reads msg s = elim (Bool-cases (ltb (length msg) (2 ^ 32))) [
  | inl fits ↦ rw fits (payload_reads msg (write_all_robust s (to_be_bytes 4 (length msg))))
  | inr long ↦ rw long
]

payload_any_reads :
    (msg : List ℕ) (es : List ReadEvent) (x : Outcome (Unit {0}) × TcpStream)
    → send_payload msg (x.0, record x.1 { reads = es })
      ≡ ((send_payload msg x).0, record (send_payload msg x).1 { reads = es })
unfolding send_payload write_all_robust
payload_any_reads msg es (ok _, s) = refl
payload_any_reads msg es (err e, s) = refl
payload_any_reads msg es (panic, s) = refl

-- What is to be read makes no difference for writing.
pub send_socket_frame_any_reads :
    (msg : List ℕ) (es : List ReadEvent) (s : TcpStream)
    → send_socket_frame msg (record s { reads = es })
      ≡ ((send_socket_frame msg s).0, record (send_socket_frame msg s).1 { reads = es })
unfolding send_socket_frame write_all_robust
send_socket_frame_any_reads msg es s = elim (Bool-cases (ltb (length msg) (2 ^ 32))) [
  | inl fits ↦ rw fits (payload_any_reads msg es (write_all_robust s (to_be_bytes 4 (length msg))))
  | inr long ↦ rw long
]

pub write_all_robust-IsTolerated :
    (s : TcpStream) (buf : List ℕ)
    → All IsTolerated s.writes
    → (rest : List WriteEvent) × (write_all_robust s buf
        ≡ (ok tt, record s { writes = rest; sent = s.sent ++ buf }))
      × All IsTolerated rest
unfolding write_all_robust
write_all_robust-IsTolerated s buf h =
    let (rest, e, quiet) = events_taken s.writes s.sent buf h in (rest, rw e, quiet)

-- Where every write takes something or may be tried again, `send_socket_frame` succeeds and puts
-- exactly the frame of a message shorter than 2 ^ 32 bytes on the stream.
pub send_socket_frame-IsTolerated :
    (s : TcpStream) (msg : List ℕ)
    → length msg < 2 ^ 32
    → All IsTolerated s.writes
    → (rest : List WriteEvent) × (send_socket_frame msg s
        ≡ (ok tt, record s { writes = rest; sent = s.sent ++ frame msg }))
      × All IsTolerated rest
unfolding send_socket_frame send_payload
send_socket_frame-IsTolerated s msg short h =
    let (w, p, h') = write_all_robust-IsTolerated s (to_be_bytes 4 (length msg)) h in
    let s' : TcpStream = record s { writes = w; sent = s.sent ++ to_be_bytes 4 (length msg) } in
    let (w', q, h'') = write_all_robust-IsTolerated s' msg h' in
    (
      w',
      rw (lt→ltb (length msg) (2 ^ 32) short, p)
          (q
            ∙ ap (λ t. (ok tt, record s { writes = w'; sent = t }))
                (append_assoc s.sent (to_be_bytes 4 (length msg)) msg)),
      h'',
    )

-- The length is converted before anything is written: a message of 2 ^ 32 bytes panics, and the
-- stream is as it was.
pub send_socket_frame_too_long :
    (s : TcpStream) (msg : List ℕ) → 2 ^ 32 ≤ length msg → send_socket_frame msg s ≡ (panic, s)
unfolding send_socket_frame
send_socket_frame_too_long s msg long = rw (le→ltb_false (length msg) (2 ^ 32) long)

-- A message of 2 ^ 32 - 4 to 2 ^ 32 - 1 bytes is one that `send_socket_frame` sends and that nobody
-- can receive: a buffer that holds its whole frame makes `pop_msg` panic.
pub oversized_frame :
    (s : TcpStream) (msg later : List ℕ)
    → length msg < 2 ^ 32
    → 2 ^ 32 ≤ length msg + 4
    → All IsTolerated s.writes
    → ((send_socket_frame msg s).0 ≡ ok tt)
      × (pop_msg (record { bytes = frame msg ++ later }) ≡ panic)
oversized_frame s msg later short long h =
    let (rest, p, quiet) = send_socket_frame-IsTolerated s msg short h in
    (ap (λ x. x.0) p, pop_msg_too_large _ (omega (arith, length-append msg later)))
