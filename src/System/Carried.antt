-- ===== src/System/Carried.antt =====
-- The proxy between a tool and a page is never stuck: a run that carries everything exists.
use exfiltrate.Common.{ℕ, ◌<◌, List, [], ◌∷◌, ◌++◌, All, true, some}
use exfiltrate.Common.{arith, ◌≡◌, refl, sym, ap, subst, ◌∙◌}
use exfiltrate.Stream.{ReadEvent, available}
use exfiltrate.Wire.{InFlightMessage}
use exfiltrate.Wire.Framing.{frames}
use exfiltrate.Wire.Delivery.{IsQuiet, FitsBuffer, Delivers, work_left}
use exfiltrate.Wire.Writing.{IsTolerated}
use exfiltrate.Proxy.Tcp.Clients.{find, live}
use exfiltrate.Proxy.Frame.{send_data}
use exfiltrate.Proxy.Handshake.Opening.{IsTaken}
use exfiltrate.Proxy.Socket.{Websocket}
use exfiltrate.Proxy.Socket.Delivery.{IsPatient}
use exfiltrate.Proxy.Socket.Delivery.{Delivers as BrowserDelivers}
use exfiltrate.Proxy.Socket.Arrivals.{Message, IsMessage, bytes_of, texts, bytes_of-Gives}
use exfiltrate.Proxy.Bridge.{Bridge, Label, Run}
use exfiltrate.Proxy.Bridge.Up.{ws_frames}
use exfiltrate.Proxy.Bridge.Flush.{Written, Run-Written, flushed}
use exfiltrate.Proxy.Bridge.Drain.{IsShort, drained}
use exfiltrate.Proxy.Bridge.Gather.{Gathered, Run-Gathered}
use exfiltrate.Proxy.Bridge.Carrying.{Run-trans, IsCalm, carrying-IsCalm}
use exfiltrate.System.{ReachesBrowser, ReachesClient, PageAnswers}
use exfiltrate.System.Answers.{answers_heard}

-- The proxy with one client and one page whose threads go on, and nothing under way yet: the
-- client's stream delivers the requests and the page's the messages.
pub record IsReady (tag page : ℕ) (b : Bridge) (requests : List (List ℕ)) (messages : List Message)
    : Type 0 where
  pub accepted : b.accepted tag ≡ true
  pub registered : find tag b.clients ≡ some (live [])
  pub reading : b.reading tag ≡ true
  pub serving : b.serving ≡ true
  pub writing : b.writing ≡ true
  pub taken : All IsTaken b.writes
  pub asked : Delivers (b.in_flight tag) (b.streams tag).reads requests
  pub tolerant : All IsTolerated (b.streams tag).writes
  pub none_sent : (b.streams tag).sent ≡ []
  pub none_waits : b.to_websocket ≡ []
  pub none_written : b.sent ≡ []
  pub none_heard : b.from_websocket ≡ []
  pub connected : page < b.opened
  pub listening : b.listening page ≡ true
  pub fresh : (b.browsers page).frame_parser.parsed_data ≡ []
  pub comes :
      (b.browsers page).frame_parser.unparsed_data ++ available (b.browsers page).reads
      ≡ bytes_of messages
  pub whole : All IsMessage messages
  pub patient : All IsPatient (b.browsers page).reads
  pub fits : All FitsBuffer (texts messages)

-- A run that carries the requests to the browser and the page's messages to the client's stream,
-- where the client can read them.
pub record Carried (tag page : ℕ) (b : Bridge) (requests : List (List ℕ)) (messages : List Message)
    : Type 0 where
  pub after : Bridge
  pub shown : List Label
  pub run : Run b shown after
  pub up : ReachesBrowser tag b after shown (frames requests)
  pub back : PageAnswers page b after shown messages
  pub on_stream : (after.streams tag).sent ≡ frames (texts messages)
  pub down :
      (m : InFlightMessage) (reads : List ReadEvent)
      → m.bytes ≡ []
      → available reads ≡ (after.streams tag).sent
      → All IsQuiet reads
      → ReachesClient tag b after shown m reads

all-IsShort : (ms : List (List ℕ)) → All FitsBuffer ms → All IsShort ms
all-IsShort [] fs = tt
all-IsShort (m ∷ ms) fs = (omega (arith, fs.0), all-IsShort ms fs.1)

both_empty : (xs ys : List ℕ) → xs ++ ys ≡ [] → (xs ≡ []) × (ys ≡ [])
both_empty [] ys e = (refl, e)
both_empty (x ∷ xs) ys e = (cc, cc)

no_bytes_left :
    (w : Websocket)
    → BrowserDelivers w []
    → (w.frame_parser.unparsed_data ≡ []) × (available w.reads ≡ [])
unfolding send_data
no_bytes_left w d = both_empty w.frame_parser.unparsed_data (available w.reads) d.gives

module _ (tag page : ℕ) (b : Bridge) (requests : List (List ℕ)) (messages : List Message)
    (w : IsReady tag page b requests messages) where
  -- The requests first.
  up_there : Written tag b requests
  up_there =
      subst (λ q. Written tag b (q ++ requests)) w.none_waits
        (Run-Written tag requests b w.asked w.reading w.serving w.writing w.taken)

  abbrev between : Bridge
  between =
      flushed b up_there.streams up_there.in_flight up_there.writes (b.sent ++ ws_frames requests)

  page_gives : BrowserDelivers (b.browsers page) (texts messages)
  unfolding send_data
  page_gives = record {
    gives =
        bytes_of-Gives messages
          (send_data (available (b.browsers page).reads) (b.browsers page).frame_parser) w.fresh
          w.comes w.whole;
    patient = w.patient;
  }

  -- Then the answers.
  down_there : Gathered tag page between (texts messages)
  down_there =
      subst (λ q. Gathered tag page between (q ++ texts messages)) w.none_heard
        (Run-Gathered tag page [] (texts messages) between w.registered w.listening page_gives
          (subst (λ q. All IsShort (q ++ texts messages)) (sym w.none_heard)
            (all-IsShort (texts messages) w.fits))
          (subst (All IsTolerated) (sym up_there.same_writes) w.tolerant))

  abbrev afterwards : Bridge
  afterwards = record (drained between down_there.clients down_there.streams) {
    browsers = down_there.browsers;
  }

  abbrev all_shown : List Label
  all_shown = up_there.shown ++ down_there.shown

  carrying : Run b all_shown afterwards
  carrying = Run-trans up_there.run down_there.run

  calm : IsCalm tag page all_shown
  calm = carrying-IsCalm tag page up_there.shown down_there.shown up_there.only down_there.only

  written_to_client : (afterwards.streams tag).sent ≡ frames (texts messages)
  written_to_client =
      down_there.on_stream
      ∙ ap (λ q. q ++ frames (texts messages)) (up_there.none_sent ∙ w.none_sent)

  goes_up : ReachesBrowser tag b afterwards all_shown (frames requests)
  goes_up = record {
    accepted = w.accepted;
    serving = w.serving;
    serves = calm.serves;
    writing = w.writing;
    lasts = calm.lasts;
    comes = w.asked.split;
    small = w.asked.small;
    quiet = w.asked.quiet;
    alone = calm.one_client;
    none_waits = w.none_waits;
    none_written = w.none_written;
    all_read = ap (work_left (up_there.in_flight tag)) down_there.same_reads ∙ up_there.all_read;
    all_written = refl;
  }

  goes_back : PageAnswers page b afterwards all_shown messages
  goes_back =
      let over = no_bytes_left (down_there.browsers page) down_there.all_read in
      record {
        connected = w.connected;
        fresh = w.fresh;
        comes = w.comes;
        whole = w.whole;
        patient = w.patient;
        alone = calm.one_browser;
        all_read = over.1;
        all_used = over.0;
      }

  -- The path through the proxy is never stuck: from any state in which a client and a page are
  -- connected and nothing is under way, there is a run that carries all requests of the client to
  -- the browser and all messages of the page to the client, and nothing else; it is one of those
  -- that a command through the proxy asks for, with any client that reads its stream from here on,
  -- and afterwards the frames of the page's messages are on the client's stream. The streams of
  -- both fail only in ways that are retried, their threads go on, the page's bytes are
  -- whole messages that are not empty, and the messages fit into the client's buffer.
  pub Run-Carried : Carried tag page b requests messages
  Run-Carried = record {
    after = afterwards;
    shown = all_shown;
    run = carrying;
    up = goes_up;
    back = goes_back;
    on_stream = written_to_client;
    down = λ m reads fresh comes quiet. record {
      registered = w.registered;
      none_heard = w.none_heard;
      none_sent = w.none_sent;
      stays = calm.stays;
      all_taken = down_there.empty;
      all_distributed = refl;
      fresh = fresh;
      comes = comes;
      quiet = quiet;
      fits = subst (All FitsBuffer) (sym (answers_heard page messages carrying goes_back)) w.fits;
    };
  }
