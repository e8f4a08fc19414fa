-- ===== src/System/Answers.antt =====
-- From the page to the proxy.
use exfiltrate.Common.{ℕ, List, [], ◌++◌, ◌≡◌, sym, ap, ◌∙◌, append-nil}
use exfiltrate.Stream.{available}
use exfiltrate.Proxy.Frame.{send_data}
use exfiltrate.Proxy.Socket.Arrivals.{Message, texts, bytes_of-Gives, none_left}
use exfiltrate.Proxy.Bridge.{Bridge, Label, Run}
use exfiltrate.Proxy.Bridge.Down.{heard_messages}
use exfiltrate.Proxy.Bridge.Heard.{heard_by, Run-Hears}
use exfiltrate.System.{PageAnswers}

-- The proxy hears the messages of the page, each once and in order.
pub answers_heard :
    (page : ℕ) {b b' : Bridge} {ls : List Label} (messages : List Message)
    → Run b ls b'
    → PageAnswers page b b' ls messages
    → heard_messages ls ≡ texts messages
unfolding send_data
answers_heard page {b} {b'} {ls} messages run w =
    let from_page = b.browsers page in
    let (rest, d, e) = Run-Hears page (texts messages) run w.connected (record {
      gives =
          bytes_of-Gives messages (send_data (available from_page.reads) from_page.frame_parser)
            w.fresh w.comes w.whole;
      patient = w.patient;
    }) in
    let all : rest ≡ [] = none_left (b'.browsers page) rest d w.all_used w.all_read in
    w.alone ∙ sym (append-nil (heard_by page ls)) ∙ ap (λ t. heard_by page ls ++ t) (sym all) ∙ e
