-- ===== src/Proxy/Frame/Pieces.antt =====
-- `parse` does not depend on how its input is cut into pieces.
use exfiltrate.Common.{ℕ, zero, suc, ◌+◌, ◌<◌, List, [], ◌++◌, length, drop, true, false}
use exfiltrate.Common.{
  arith, ◌≡◌, refl, sym, ap, subst, ◌∙◌, length-append, length-drop, drop-append_le,
}
use exfiltrate.Proxy.Frame.Agreement.{found_used}
use exfiltrate.Proxy.Frame.{
  WebsocketFrameParser, too_short, Found, fails, overflows, found, Parsed, complete, failed,
  next_frame, parse_loop, parse, panicked, stuck, continue_parse, send_data, closed, rejected,
}
use exfiltrate.Proxy.Frame.Prefixes.{next_frame-append, next_closed, next_rejected, next_overflows}

-- Two numbers of rounds that are both enough.
same_rounds_next :
    (next next' : WebsocketFrameParser → Parsed × WebsocketFrameParser) (p : WebsocketFrameParser)
    (x : Found)
    → next_frame p.unparsed_data ≡ x
    → ((q : WebsocketFrameParser)
        → length q.unparsed_data < length p.unparsed_data
        → next q ≡ next' q)
    → continue_parse next p x ≡ continue_parse next' p x
unfolding continue_parse
same_rounds_next next next' p (fails t) e ih = refl
same_rounds_next next next' p overflows e ih = refl
same_rounds_next next next' p (found true mask payload used) e ih = refl
same_rounds_next next next' p (found false mask payload used) e ih =
    ih _ (omega (arith, found_used p.unparsed_data e, length-drop used p.unparsed_data))

same_rounds :
    (m n : ℕ) (p : WebsocketFrameParser)
    → length p.unparsed_data < m
    → length p.unparsed_data < n
    → parse_loop m p ≡ parse_loop n p
unfolding parse_loop
same_rounds zero n p hm hn = absurd (omega arith)
same_rounds (suc m) zero p hm hn = absurd (omega arith)
same_rounds (suc m) (suc n) p hm hn =
    same_rounds_next (parse_loop m) (parse_loop n) p (next_frame p.unparsed_data) refl
      (λ q less. same_rounds m n q (omega arith) (omega arith))

-- How the loop ends on all of the data, by how it ends on the first part.
abbrev pub Resumes : Parsed × WebsocketFrameParser → Parsed × WebsocketFrameParser → List ℕ → Type 0
Resumes (complete f, q) y more = y ≡ (complete f, send_data more q)
Resumes (failed too_short, q) y more = y ≡ parse (send_data more q)
Resumes (failed e, q) y more = y ≡ (failed e, send_data more q)
Resumes (panicked, q) y more = y ≡ (panicked, send_data more q)
Resumes (stuck, q) y more = Unit

Resumes-next :
    (next next' : WebsocketFrameParser → Parsed × WebsocketFrameParser) (p : WebsocketFrameParser)
    (more : List ℕ) (x : Found)
    → next_frame p.unparsed_data ≡ x
    → ((q : WebsocketFrameParser)
        → length q.unparsed_data < length p.unparsed_data
        → Resumes (next q) (next' (send_data more q)) more)
    → (continue_parse next' (send_data more p) (next_frame (p.unparsed_data ++ more))
        ≡ parse (send_data more p))
    → Resumes
        (continue_parse next p x)
        (continue_parse next' (send_data more p) (next_frame (p.unparsed_data ++ more)))
        more
unfolding continue_parse send_data
Resumes-next next next' p more (fails too_short) e ih whole = whole
Resumes-next next next' p more (fails closed) e ih whole =
    rw (next_closed p.unparsed_data more e) refl
Resumes-next next next' p more (fails (rejected n)) e ih whole =
    rw (next_rejected p.unparsed_data more n e) refl
Resumes-next next next' p more overflows e ih whole =
    rw (next_overflows p.unparsed_data more e) refl
Resumes-next next next' p more (found true mask payload used) e ih whole =
    rw (next_frame-append p.unparsed_data more e) (
      ap
        (λ t. (
          complete (record { payload = p.parsed_data ++ payload; mask = mask }),
          record { parsed_data = []; unparsed_data = t; frames_received = 0 },
        ))
        (drop-append_le used p.unparsed_data more (found_used p.unparsed_data e).1))
Resumes-next next next' p more (found false mask payload used) e ih whole =
    let q : WebsocketFrameParser = record {
      parsed_data = p.parsed_data ++ payload;
      unparsed_data = drop used p.unparsed_data;
      frames_received = p.frames_received + 1;
    } in
    subst (λ y. Resumes (next q) y more)
      (sym (
        ap (continue_parse next' (send_data more p)) (next_frame-append p.unparsed_data more e)
        ∙ ap (λ t. next' (record q { unparsed_data = t }))
            (drop-append_le used p.unparsed_data more (found_used p.unparsed_data e).1)))
      (ih q (omega (arith, found_used p.unparsed_data e, length-drop used p.unparsed_data)))

parse_loop-Resumes :
    (m n : ℕ) (p : WebsocketFrameParser) (more : List ℕ)
    → length p.unparsed_data < m
    → length p.unparsed_data + length more < n
    → Resumes (parse_loop m p) (parse_loop n (send_data more p)) more
unfolding parse_loop send_data parse
parse_loop-Resumes zero n p more hm hn = absurd (omega arith)
parse_loop-Resumes (suc m) zero p more hm hn = absurd (omega arith)
parse_loop-Resumes (suc m) (suc n) p more hm hn =
    Resumes-next (parse_loop m) (parse_loop n) p more (next_frame p.unparsed_data) refl
      (λ q less. parse_loop-Resumes m n q more (omega arith) (omega arith))
      (same_rounds (suc n) (length (p.unparsed_data ++ more) + 1) (send_data more p)
        (omega (arith, length-append p.unparsed_data more)) (omega arith))

-- `parse` does not depend on when its data comes in. Where a first part gives a message, an error
-- other than `TooShort` or a panic, all of the data gives the same, and what comes later only stays
-- behind it; where the first part is too short, parsing again with more data gives what parsing all
-- of it at once gives.
pub parse-Resumes :
    (p : WebsocketFrameParser) (more : List ℕ) → Resumes (parse p) (parse (send_data more p)) more
unfolding parse send_data
parse-Resumes p more =
    parse_loop-Resumes (length p.unparsed_data + 1) (length (p.unparsed_data ++ more) + 1) p more
      (omega arith) (omega (arith, length-append p.unparsed_data more))
