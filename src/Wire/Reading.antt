-- ===== src/Wire/Reading.antt =====
-- One call of `read_stream` on a stream that delivers whole frames, however the bytes are cut into
-- reads: it hands over the next message, or waits and comes closer to it.
use exfiltrate.Common.{ℕ, ◌+◌, ◌-◌, ◌^◌, ◌≤◌, ◌<◌, List, [], ◌∷◌, ◌++◌, length, take, drop}
use exfiltrate.Common.{
  some, none, ltb, arith, ◌≡◌, refl, sym, ap, ◌∙◌, ◌⊎◌, inl, inr, All, append_assoc, append-nil,
}
use exfiltrate.Common.{
  Bool, true, false, ltb→lt, ltb_false→le, take-append-drop, length-append, length-drop,
  length-take,
}
use exfiltrate.Stream.{
  Outcome, ok, ReadEvent, ready, failed, mode_failed, TcpStream, available, would_block,
  interrupted, timed_out, write_zero, connection_refused, permission_denied, other,
}
use exfiltrate.Stream.{set_nonblocking, read_events}
use exfiltrate.Wire.{
  InFlightMessage, ReadStatus, completed, progress, blocked, pop_msg, read_stream, read_status,
  read_more, take_answer, add_bytes, status_after, buf_size, new,
}
use exfiltrate.Wire.Framing.{frames}
use exfiltrate.Wire.Delivery.{Delivers, work_left, Short, whole, short, pop_frames, FitsBuffer}

-- What one call does.
pub data Round (m : InFlightMessage) (es : List ReadEvent) (msgs : List (List ℕ)) : Type 0 where
  delivered :
      (msg : List ℕ) (rest : List (List ℕ)) (m' : InFlightMessage) (es' : List ReadEvent)
      → msgs ≡ msg ∷ rest
      → read_status m es ≡ (ok (completed msg), m', es')
      → Delivers m' es' rest
      → work_left m' es' < work_left m es
      → Round m es msgs
  made_progress :
      (m' : InFlightMessage) (es' : List ReadEvent)
      → read_status m es ≡ (ok progress, m', es')
      → Delivers m' es' msgs
      → work_left m' es' < work_left m es
      → Round m es msgs
  found_nothing :
      (m' : InFlightMessage) (es' : List ReadEvent)
      → read_status m es ≡ (ok blocked, m', es')
      → Delivers m' es' msgs
      → work_left m' es' ≤ work_left m es - 1
      → Round m es msgs

status_after_whole :
    (bs : List ℕ) (m : InFlightMessage) (msg : List ℕ) (m' : InFlightMessage)
    → pop_msg m ≡ ok (some msg, m')
    → status_after bs m ≡ (ok (completed msg), m')
unfolding status_after
status_after_whole bs m msg m' p = rw (p, status_after)

status_after_short :
    (bs : List ℕ) (m : InFlightMessage)
    → pop_msg m ≡ ok (none, m)
    → (status_after bs m ≡ (ok blocked, m)) ⊎ (status_after bs m ≡ (ok progress, m))
unfolding status_after
status_after_short [] m p = inl (rw (p, status_after))
status_after_short (b ∷ bs) m p = inr (rw (p, status_after))

-- The part of the call after a `read` that returned `bs`; `m` has them already.
after_data :
    (m : InFlightMessage) (bs : List ℕ) (es : List ReadEvent) (msgs : List (List ℕ))
    (m₀ : InFlightMessage) (es₀ : List ReadEvent)
    → read_status m₀ es₀ ≡ (let (r, m') = status_after bs m in (r, m', es))
    → Delivers m es msgs
    → work_left m es < work_left m₀ es₀
    → Round m₀ es₀ msgs
after_data m bs es msgs m₀ es₀ call d falls =
    elim (pop_frames m (available es) msgs d.split d.small d.fits) [
      | whole msg rest m' e p split less ↦
          delivered msg rest m' es e (call ∙ rw (status_after_whole bs m msg m' p))
            (record {
              split = split;
              small = omega (arith, d.small);
              fits = (rw e at d.fits).1;
              quiet = d.quiet;
            })
            (omega arith)
      | short p s ↦ elim (status_after_short bs m p) [
        | inl q ↦ found_nothing m es (call ∙ rw q) d (omega arith)
        | inr q ↦ made_progress m es (call ∙ rw q) d falls
      ]
    ]

-- There is room for a whole read.
room :
    (m : InFlightMessage) (msgs : List (List ℕ))
    → Short m msgs
    → All FitsBuffer msgs
    → length m.bytes + buf_size < 2 ^ 32
room m [] s f = omega arith
room m (msg ∷ msgs) s f = omega arith

-- With nothing to come, the buffer of a stream of frames is empty.
nothing_buffered :
    (m : InFlightMessage) (msgs : List (List ℕ))
    → Short m msgs
    → m.bytes ++ [] ≡ frames msgs
    → length m.bytes ≡ 0
nothing_buffered m [] s split = s
nothing_buffered m (msg ∷ msgs) s split =
    absurd
      (omega (arith, ap length split, length-append m.bytes [], length-append msg (frames msgs)))

read_status_empty :
    (m : InFlightMessage) (es : List ReadEvent)
    → pop_msg m ≡ ok (none, m)
    → read_status m es ≡ read_more m (set_nonblocking es)
unfolding read_status read_more
read_status_empty m es p = rw (p, read_status)

read_data :
    (m : InFlightMessage) (bs : List ℕ) (es : List ReadEvent) (msgs : List (List ℕ))
    → (long : Bool) → ltb buf_size (length bs) ≡ long
    → pop_msg m ≡ ok (none, m)
    → Short m msgs
    → Delivers m (ready bs ∷ es) msgs
    → Round m (ready bs ∷ es) msgs
read_data m bs es msgs true e p s d =
    let taken = take buf_size bs in
    let left = drop buf_size bs in
    after_data (add_bytes m taken) taken (ready left ∷ es) msgs m (ready bs ∷ es)
      (read_status_empty m (ready bs ∷ es) p
        ∙ unfold read_more set_nonblocking read_events take_answer in rw e)
      (unfold add_bytes in
        record {
          split =
              append_assoc m.bytes taken (left ++ available es)
              ∙ ap (λ t. m.bytes ++ t)
                  (sym (append_assoc taken left (available es))
                    ∙ ap (λ t. t ++ available es) (take-append-drop buf_size bs))
              ∙ d.split;
          small =
              omega
                (arith, room m msgs s d.fits, length-append m.bytes taken, length-take buf_size bs);
          fits = d.fits;
          quiet = (tt, d.quiet.1);
        })
      (unfold add_bytes in
        omega (
          arith,
          ltb→lt _ _ e,
          length-append m.bytes taken,
          length-take buf_size bs,
          length-append bs (available es),
          length-append left (available es),
          length-drop buf_size bs,
        ))
read_data m bs es msgs false e p s d =
    after_data (add_bytes m bs) bs es msgs m (ready bs ∷ es)
      (read_status_empty m (ready bs ∷ es) p
        ∙ unfold read_more set_nonblocking read_events take_answer in rw e)
      (unfold add_bytes in
        record {
          split = append_assoc m.bytes bs (available es) ∙ d.split;
          small = omega (arith, room m msgs s d.fits, ltb_false→le _ _ e, length-append m.bytes bs);
          fits = d.fits;
          quiet = d.quiet.1;
        })
      (unfold add_bytes in omega (arith, length-append m.bytes bs, length-append bs (available es)))

-- A call that has to read: the buffer does not hold a whole frame.
reads_more :
    (m : InFlightMessage) (es : List ReadEvent) (msgs : List (List ℕ))
    → pop_msg m ≡ ok (none, m)
    → Short m msgs
    → Delivers m es msgs
    → Round m es msgs
reads_more m [] msgs p s d =
    found_nothing m []
      (read_status_empty m [] p ∙ unfold read_more set_nonblocking read_events take_answer in refl)
      d (omega (arith, nothing_buffered m msgs s d.split))
reads_more m (ready bs ∷ es) msgs p s d = read_data m bs es msgs _ refl p s d
reads_more m (failed would_block ∷ es) msgs p s d =
    found_nothing m es
      (read_status_empty m _ p ∙ unfold read_more set_nonblocking read_events take_answer in refl)
      (record { split = d.split; small = d.small; fits = d.fits; quiet = d.quiet.1 }) (omega arith)
reads_more m (failed interrupted ∷ es) msgs p s d = absurd d.quiet.0
reads_more m (failed timed_out ∷ es) msgs p s d = absurd d.quiet.0
reads_more m (failed write_zero ∷ es) msgs p s d = absurd d.quiet.0
reads_more m (failed connection_refused ∷ es) msgs p s d = absurd d.quiet.0
reads_more m (failed permission_denied ∷ es) msgs p s d = absurd d.quiet.0
reads_more m (failed (other n) ∷ es) msgs p s d = absurd d.quiet.0
reads_more m (mode_failed e ∷ es) msgs p s d = absurd d.quiet.0

-- With nothing buffered and nothing to read, nothing changes.
pub read_status_none :
    (es : List ReadEvent) → read_status new (failed would_block ∷ es) ≡ (ok blocked, new, es)
unfolding new pop_msg
read_status_none es =
    read_status_empty new _ refl ∙ unfold read_more set_nonblocking read_events take_answer in refl

-- A message that is whole in the buffer is returned before anything is read.
pub read_status_whole :
    (m : InFlightMessage) (es : List ReadEvent) {msg : List ℕ} {m' : InFlightMessage}
    → pop_msg m ≡ ok (some msg, m')
    → read_status m es ≡ (ok (completed msg), m', es)
unfolding read_status
read_status_whole m es p = rw (p, read_status)

-- Every call delivers the next message or comes closer to it.
pub read_status-Round :
    (m : InFlightMessage) (es : List ReadEvent) (msgs : List (List ℕ))
    → Delivers m es msgs
    → Round m es msgs
unfolding read_status
read_status-Round m es msgs d = elim (pop_frames m (available es) msgs d.split d.small d.fits) [
  | whole msg rest m' e p split less ↦
      delivered msg rest m' es e (read_status_whole m es p)
        (record {
          split = split;
          small = omega (arith, d.small);
          fits = (rw e at d.fits).1;
          quiet = d.quiet;
        })
        (omega arith)
  | short p s ↦ reads_more m es msgs p s d
]

-- `read_stream` is `read_status` on the reads of the stream.
pub read_stream_lem :
    (m : InFlightMessage) (s : TcpStream) {r : Outcome ReadStatus} {m' : InFlightMessage}
    {es' : List ReadEvent}
    → read_status m s.reads ≡ (r, m', es')
    → read_stream m s ≡ (r, m', record s { reads = es' })
unfolding read_stream
read_stream_lem m s p = rw p

-- Reading writes nothing.
pub read_stream_sent : (m : InFlightMessage) (s : TcpStream) → (read_stream m s).2.sent ≡ s.sent
unfolding read_stream
read_stream_sent m s = refl

add_bytes_nil : (m : InFlightMessage) → add_bytes m [] ≡ m
unfolding add_bytes
add_bytes_nil m = ap (λ t. record m { bytes = t }) (append-nil m.bytes)

status_after_nil :
    (m : InFlightMessage) → pop_msg m ≡ ok (none, m) → status_after [] m ≡ (ok blocked, m)
unfolding status_after
status_after_nil m p = rw (p, status_after)

-- At the end of the stream a call finds nothing, and leaves the buffer as it is.
pub read_status_ended :
    (m : InFlightMessage) (es : List ReadEvent)
    → pop_msg m ≡ ok (none, m)
    → read_status m (ready [] ∷ es) ≡ (ok blocked, m, es)
unfolding read_more take_answer status_after
read_status_ended m es p =
    read_status_empty m (ready [] ∷ es) p
    ∙ unfold set_nonblocking read_events in
      ap (λ t. ((status_after [] t).0, (status_after [] t).1, es)) (add_bytes_nil m)
      ∙ ap (λ (t : Outcome ReadStatus × InFlightMessage). (t.0, t.1, es)) (status_after_nil m p)
