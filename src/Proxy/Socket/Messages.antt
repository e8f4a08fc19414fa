-- ===== src/Proxy/Socket/Messages.antt =====
-- The messages of a browser through `Websocket::read`, from its frames on.
use exfiltrate.Common.{ℕ, zero, suc, List, [], ◌∷◌, ◌++◌, All}
use exfiltrate.Common.{◌≡◌, ◌≢◌, refl, sym, ap, subst, ◌∙◌}
use exfiltrate.Stream.{available}
use exfiltrate.Proxy.Frame.{
  WebsocketFrameParser, WebsocketFrame, Parsed, complete, failed, panicked, stuck, too_short,
  closed, rejected, parse, send_data,
}
use exfiltrate.Proxy.Frame.Agreement.{parse-ne-stuck}
use exfiltrate.Proxy.Frame.Pieces.{Resumes, parse-Resumes}
use exfiltrate.Proxy.Socket.{
  Websocket, Progress, waiting, crashed, returned, failed_with, read_round, go_on_reading, read,
}
use exfiltrate.Proxy.Socket.Delivery.{
  IsPatient, Gives, Delivers, Round, got, waits, parse_nothing, send_data_nil, try_returned,
  after_short,
}

front_empty : (xs ys : List ℕ) → xs ++ ys ≡ [] → xs ≡ []
front_empty [] ys e = refl
front_empty (x ∷ xs) ys e = cc

module _ (w : Websocket) where
  abbrev later : List ℕ
  later = available w.reads

  abbrev all_bytes : WebsocketFrameParser
  all_bytes = send_data later w.frame_parser

  no_bytes : Gives all_bytes [] → parse w.frame_parser ≡ (failed too_short, w.frame_parser)
  unfolding send_data
  no_bytes g = parse_nothing w.frame_parser (front_empty w.frame_parser.unparsed_data later g)

  -- A message that is complete already.
  complete_now :
      (messages : List (List ℕ)) (f : WebsocketFrame) (q : WebsocketFrameParser)
      → parse w.frame_parser ≡ (complete f, q)
      → parse all_bytes ≡ (complete f, send_data later q)
      → Gives all_bytes messages
      → All IsPatient w.reads
      → Round w messages
  complete_now [] f q e y g ps = absurd (differs (sym e ∙ no_bytes g))
    where
      differs :
          {f : WebsocketFrame} {p q : WebsocketFrameParser}
          → ◌≢◌ {A = Parsed × WebsocketFrameParser} (complete f, q) (failed too_short, p)
      differs h = cc
  complete_now (message ∷ rest) f q e y (mask, q', c, some_bytes, g) ps =
      let (same_frame, same_parser) = same (sym y ∙ c) in
      got message rest (record w { frame_parser = q }) refl
        (try_returned w message mask q (e ∙ ap (λ t. (complete t, q)) same_frame) some_bytes)
        (record { gives = subst (λ t. Gives t rest) (sym same_parser) g; patient = ps })
    where
      same :
          {f f' : WebsocketFrame} {p p' : WebsocketFrameParser}
          → ◌≡◌ {A = Parsed × WebsocketFrameParser} (complete f, p) (complete f', p')
          → (f ≡ f') × (p ≡ p')
      same h = (cc, cc)

  -- Bytes that are too few.
  not_yet :
      (messages : List (List ℕ)) (p : WebsocketFrameParser)
      → parse w.frame_parser ≡ (failed too_short, p)
      → parse all_bytes ≡ parse (send_data later p)
      → Gives all_bytes messages
      → All IsPatient w.reads
      → Round w messages
  not_yet [] p e y g ps =
      let same : w.frame_parser ≡ p =
        ap (λ (t : Parsed × WebsocketFrameParser). t.1) (sym (no_bytes g) ∙ e) in
      after_short w w.reads p [] refl e (subst (λ t. Gives (send_data later t) []) same g) ps
        (λ h. refl)
  not_yet (message ∷ rest) p e y (mask, q, c, some_bytes, g) ps =
      after_short w w.reads p (message ∷ rest) refl e (mask, q, sym y ∙ c, some_bytes, g) ps
        (λ nothing. absurd (
          differs (
            sym e
            ∙ sym (
                ap parse (
                  ap (λ es. send_data (available es) w.frame_parser) nothing
                  ∙ send_data_nil w.frame_parser))
            ∙ c)))
    where
      differs :
          {f : WebsocketFrame} {p q : WebsocketFrameParser}
          → ◌≢◌ {A = Parsed × WebsocketFrameParser} (failed too_short, p) (complete f, q)
      differs h = cc

  -- Anything else contradicts what the bytes give.
  not_given :
      (messages : List (List ℕ)) (x y : Parsed) (p q : WebsocketFrameParser)
      → parse w.frame_parser ≡ (x, p)
      → parse all_bytes ≡ (y, q)
      → x ≢ failed too_short
      → ((f : WebsocketFrame) → y ≢ complete f)
      → Gives all_bytes messages
      → ⊥
  not_given [] x y p q e e' short whole g =
      short (ap (λ (t : Parsed × WebsocketFrameParser). t.0) (sym e ∙ no_bytes g))
  not_given (message ∷ rest) x y p q e e' short whole (mask, q', c, some_bytes, g) =
      whole _ (ap (λ (t : Parsed × WebsocketFrameParser). t.0) (sym e' ∙ c))

  pub Round-cases : (messages : List (List ℕ)) → Delivers w messages → Round w messages
  Round-cases messages d = go (parse w.frame_parser) refl (parse-Resumes w.frame_parser later)
    where
      go :
          (x : Parsed × WebsocketFrameParser)
          → parse w.frame_parser ≡ x
          → Resumes x (parse all_bytes) later
          → Round w messages
      go (complete f, q) e y = complete_now messages f q e y d.gives d.patient
      go (failed too_short, p) e y = not_yet messages p e y d.gives d.patient
      go (failed closed, p) e y =
          absurd (
            not_given messages (failed closed) (failed closed) p _ e y (λ h. cc) (λ f h. cc)
              d.gives)
      go (failed (rejected k), p) e y = absurd (
          not_given messages (failed (rejected k)) (failed (rejected k)) p _ e y (λ h. cc)
            (λ f h. cc) d.gives)
      go (panicked, p) e y =
          absurd (not_given messages panicked panicked p _ e y (λ h. cc) (λ f h. cc) d.gives)
      go (stuck, p) e y =
          absurd (parse-ne-stuck w.frame_parser (ap (λ (t : Parsed × WebsocketFrameParser). t.0) e))

-- What a call of `read` comes to: the next message, or nothing yet; no error and no panic.
abbrev pub Next : Progress × Websocket → List (List ℕ) → Type 0
Next (returned message, w) messages =
    (rest : List (List ℕ)) × (messages ≡ message ∷ rest) × Delivers w rest
Next (waiting, w) messages = Delivers w messages
Next (crashed, w) messages = ⊥
Next (failed_with e, w) messages = ⊥

pub read_returned :
    (rounds : ℕ) (w : Websocket) {x : Progress × Websocket} {message : List ℕ} {w' : Websocket}
    → read_round w ≡ x
    → x ≡ (returned message, w')
    → read (suc rounds) w ≡ (returned message, w')
unfolding read go_on_reading
read_returned rounds w e h = ap (go_on_reading (read rounds)) (e ∙ h)

pub read_waited :
    (rounds : ℕ) (w : Websocket) {w' : Websocket}
    → read_round w ≡ (waiting, w')
    → read (suc rounds) w ≡ read rounds w'
unfolding read go_on_reading
read_waited rounds w e = ap (go_on_reading (read rounds)) e

-- Where the browser's bytes are whole messages, however they come in, `read` never fails or panics:
-- it returns the next message and leaves the others, or has none yet and loses nothing.
pub read-Next :
    (rounds : ℕ) (w : Websocket) (messages : List (List ℕ))
    → Delivers w messages
    → Next (read rounds w) messages
unfolding read
read-Next zero w messages d = d
read-Next (suc rounds) w messages d = elim (Round-cases w messages d) [
  | got message rest w' e r d' ↦
      subst (λ x. Next x messages) (sym (read_returned rounds w r refl)) (rest, e, d')
  | waits w' r d' less ↦
      subst (λ x. Next x messages) (sym (read_waited rounds w r)) (read-Next rounds w' messages d')
]
