-- ===== src/System/Requests.antt =====
-- From the tool to the browser.
use exfiltrate.Common.{ℕ, List, [], ◌++◌, All, arith, ◌≡◌, sym, ap, ◌∙◌, append-nil}
use exfiltrate.Wire.Framing.{frames}
use exfiltrate.Wire.Delivery.{FitsBuffer, no_work_left}
use exfiltrate.Proxy.Bridge.{Bridge, Label, Run}
use exfiltrate.Proxy.Bridge.Rounds.{forwarded_by}
use exfiltrate.Proxy.Bridge.Readers.{Run-Keeps}
use exfiltrate.Proxy.Bridge.Up.{forwarded_messages, Run-Posted, ws_frames}
use exfiltrate.System.{ReachesBrowser}

module _ (tag : ℕ) {b b' : Bridge} {ls : List Label} (requests : List (List ℕ)) (run : Run b ls b')
    (w : ReachesBrowser tag b b' ls (frames requests)) (fits : All FitsBuffer requests) where
  -- The reader thread of the client has forwarded every request.
  all_forwarded : forwarded_by tag ls ≡ requests
  all_forwarded =
      let (rest, owed, e) =
        Run-Keeps tag requests run w.serving w.serves w.accepted
          (record { split = w.comes; small = w.small; fits = fits; quiet = w.quiet }) in
      let none_left : rest ≡ [] = no_work_left _ _ rest owed (omega (arith, w.all_read)) in
      sym (append-nil (forwarded_by tag ls))
      ∙ ap (λ t. forwarded_by tag ls ++ t) (sym none_left)
      ∙ e

  -- What the browser has been sent are the frames of the requests, each once and in order.
  pub requests_arrive : b'.sent ≡ ws_frames requests
  requests_arrive =
      let p = Run-Posted run w.writing w.lasts in
      let all : p.written ≡ requests =
        sym (append-nil p.written)
        ∙ ap (λ t. p.written ++ t) (sym w.all_written)
        ∙ p.in_order
        ∙ ap (λ t. t ++ forwarded_messages ls) w.none_waits
        ∙ w.alone
        ∙ all_forwarded in
      p.on_stream ∙ ap (λ t. t ++ ws_frames p.written) w.none_written ∙ ap ws_frames all
