-- ===== src/Proxy/Http/Request.antt =====
-- Requests by their lines, through `pop`: whole ones, and ones of which a part has come in.
use exfiltrate.Common.{ℕ, ◌+◌, List, [], ◌∷◌, ◌++◌, length, drop, Bool, true, false, ◌&&◌, ltb}
use exfiltrate.Common.{
  ◌==◌, Option, none, some, arith, ◌≡◌, refl, sym, ap, ◌∙◌, All, length-append, drop-append_length,
  append_assoc, append-nil, le→ltb_false, ◌<◌, if◌then◌else◌,
}
use exfiltrate.Common.Text.{Text, text, text_eq}
use exfiltrate.Proxy.Http.{
  HttpParser, HttpParseResult, new, not_found, not_ready, out_of_range, websocket, rejected,
  split_on, prepend, push_line, header_section, parse_headers, get_or_empty, upgrade, judge,
  pop_request, pop_section, pop,
}

-- No line break in it.
abbrev pub IsUnbroken : List ℕ → Type 0
IsUnbroken [] = Unit
IsUnbroken (b ∷ bs) = (b == b'\n' ≡ false) × IsUnbroken bs

-- A line that is not blank, without its line break.
pub record IsLine (line : List ℕ) : Type 0 where
  pub unbroken : IsUnbroken line
  pub nonempty : text_eq line [] ≡ false
  pub filled : text_eq line (b'\r' ∷ []) ≡ false

-- Lines as they are sent; each but the last byte of its break belongs to the line.
abbrev pub join : List (List ℕ) → List ℕ
join [] = []
join (line ∷ lines) = line ++ (b'\n' ∷ join lines)

split_on-line :
    (line rest : List ℕ)
    → IsUnbroken line
    → split_on b'\n' (line ++ (b'\n' ∷ rest)) ≡ line ∷ split_on b'\n' rest
unfolding split_on
split_on-line [] rest h = refl
split_on-line (b ∷ bs) rest h = rw h.0 (ap (prepend b) (split_on-line bs rest h.1))

split_on-unbroken : (line : List ℕ) → IsUnbroken line → split_on b'\n' line ≡ line ∷ []
unfolding split_on
split_on-unbroken [] h = refl
split_on-unbroken (b ∷ bs) h = rw h.0 (ap (prepend b) (split_on-unbroken bs h.1))

-- The lines stand before what ends the section.
abbrev pub after_lines : List (List ℕ) → Option (List (List ℕ) × ℕ) → Option (List (List ℕ) × ℕ)
after_lines [] found = found
after_lines (line ∷ lines) found = push_line line (after_lines lines found)

filled_line :
    (line : List ℕ) (lines : List (List ℕ))
    → IsLine line
    → header_section (line ∷ lines) ≡ push_line line (header_section lines)
unfolding header_section
filled_line line lines h = rw (h.nonempty, h.filled) refl

header_section-lines :
    (lines : List (List ℕ)) (rest : List ℕ)
    → All IsLine lines
    → header_section (split_on b'\n' (join lines ++ rest))
      ≡ after_lines lines (header_section (split_on b'\n' rest))
header_section-lines [] rest h = refl
header_section-lines (line ∷ lines) rest h =
    ap (λ t. header_section (split_on b'\n' t)) (append_assoc line (b'\n' ∷ join lines) rest)
    ∙ ap header_section (split_on-line line (join lines ++ rest) h.0.unbroken)
    ∙ filled_line line (split_on b'\n' (join lines ++ rest)) h.0
    ∙ ap (push_line line) (header_section-lines lines rest h.1)

after_lines-none : (lines : List (List ℕ)) → after_lines lines none ≡ none
after_lines-none [] = refl
after_lines-none (line ∷ lines) = ap (push_line line) (after_lines-none lines)

after_lines-some :
    (lines : List (List ℕ)) (k : ℕ)
    → after_lines lines (some ([], k)) ≡ some (lines, length (join lines) + k)
after_lines-some [] k = ap (λ n. some ([], n)) (omega arith)
after_lines-some (line ∷ lines) k =
    ap (push_line line) (after_lines-some lines k)
    ∙ ap (λ n. some (line ∷ lines, n)) (omega (arith, length-append line (b'\n' ∷ join lines)))

-- What the section is taken to be, where `rest` starts with its end.
section_found :
    (lines : List (List ℕ)) (rest : List ℕ) (k : ℕ)
    → All IsLine lines
    → header_section (split_on b'\n' rest) ≡ some ([], k)
    → header_section (split_on b'\n' (join lines ++ rest)) ≡ some (lines, length (join lines) + k)
section_found lines rest k h e =
    header_section-lines lines rest h ∙ ap (after_lines lines) e ∙ after_lines-some lines k

-- A request to open a WebSocket, by its parts: `GET / <version>`, and among its header lines, whose
-- names do not depend on case, `upgrade: websocket`.
pub record AsksUpgrade (request_line : List ℕ) (lines : List (List ℕ)) (key : Text) : Type 0 where
  pub version : List ℕ
  pub more : List (List ℕ)
  pub headers : List (Text × Text)
  pub first_line : split_on 32 request_line ≡ text "GET" ∷ text "/" ∷ version ∷ more
  pub named : parse_headers [] lines ≡ some headers
  pub upgrades : text_eq (get_or_empty (text "upgrade") headers) (text "websocket") ≡ true
  pub keyed : get_or_empty (text "sec-websocket-key") headers ≡ key

judged :
    (p : HttpParser) (request_line : List ℕ) (lines : List (List ℕ)) (key : Text) (pos : ℕ)
    → AsksUpgrade request_line lines key
    → pop_section p (some (request_line ∷ lines, pos)) ≡ upgrade p pos key
unfolding pop_section pop_request judge
judged p request_line lines key pos a =
    rw (a.first_line, a.named) (unfold text_eq in rw (a.upgrades, a.keyed) refl)

asked :
    (p : HttpParser) (request_line : List ℕ) (lines : List (List ℕ)) (key : Text) (rest : List ℕ)
    (k : ℕ)
    → All IsLine (request_line ∷ lines)
    → AsksUpgrade request_line lines key
    → header_section (split_on b'\n' rest) ≡ some ([], k)
    → p.buf ≡ join (request_line ∷ lines) ++ rest
    → pop p ≡ upgrade p (length (join (request_line ∷ lines)) + k) key
unfolding pop
asked p request_line lines key rest k h a e b =
    ap (λ t. pop_section p (header_section (split_on b'\n' t))) b
    ∙ ap (pop_section p) (section_found (request_line ∷ lines) rest k h e)
    ∙ judged p request_line lines key _ a

upgraded :
    (p : HttpParser) (before leftover : List ℕ) (key : Text)
    → p.buf ≡ before ++ leftover
    → upgrade p (length before) key
      ≡ (websocket (record { key = key; leftover_bytes = leftover }), p)
unfolding upgrade
upgraded p before leftover key b =
    rw
      (le→ltb_false (length p.buf) (length before)
        (omega (arith, ap length b, length-append before leftover)))
      (ap (λ t. (websocket (record { key = key; leftover_bytes = t }), p))
        (ap (drop (length before)) b ∙ drop-append_length before leftover))

past_end :
    (p : HttpParser) (pos : ℕ) (key : Text)
    → length p.buf < pos
    → upgrade p pos key ≡ (out_of_range, p)
unfolding upgrade
past_end p pos key h = ground arith

no_end : (partial : List ℕ) → IsLine partial → header_section (split_on b'\n' partial) ≡ none
no_end partial l =
    ap header_section (split_on-unbroken partial l.unbroken)
    ∙ filled_line partial [] l
    ∙ unfold header_section in refl

-- A request to open a WebSocket that has come in whole is answered with its key and with the bytes
-- behind it, which are the first of the frames.
pub pop-upgrade :
    (p : HttpParser) (request_line : List ℕ) (lines : List (List ℕ)) (key : Text)
    (leftover : List ℕ)
    → All IsLine (request_line ∷ lines)
    → AsksUpgrade request_line lines key
    → p.buf ≡ join (request_line ∷ lines) ++ text "\r\n" ++ leftover
    → pop p ≡ (websocket (record { key = key; leftover_bytes = leftover }), p)
pop-upgrade p request_line lines key leftover h a b =
    let before = join (request_line ∷ lines) ++ text "\r\n" in
    let size : length before ≡ length (join (request_line ∷ lines)) + 2 =
      length-append (join (request_line ∷ lines)) (text "\r\n") in
    asked p request_line lines key (text "\r\n" ++ leftover) 2 h a
      (unfold header_section split_on text_eq in refl)
      (b ∙ append_assoc (join (request_line ∷ lines)) (text "\r\n") leftover)
    ∙ ap (λ n. upgrade p n key) (sym size)
    ∙ upgraded p before leftover key b

-- Where the bytes that have come in end behind a header line, or one byte before the end of the
-- request, and already ask for a WebSocket, `pop` takes them for a whole request and panics: the
-- bytes behind the request would start after the end of the buffer.
pub pop_cut :
    (request_line : List ℕ) (lines : List (List ℕ)) (key : Text)
    → All IsLine (request_line ∷ lines)
    → AsksUpgrade request_line lines key
    → ((pop (record { buf = join (request_line ∷ lines) })).0 ≡ out_of_range)
      × ((pop (record { buf = join (request_line ∷ lines) ++ text "\r" })).0 ≡ out_of_range)
pop_cut request_line lines key h a =
    let all = join (request_line ∷ lines) in
    (
      ap (λ r. r.0)
          (asked (record { buf = all }) request_line lines key [] 1 h a
              (unfold header_section split_on text_eq in refl) (sym (append-nil all))
            ∙ past_end (record { buf = all }) (length all + 1) key (omega arith)),
      ap (λ r. r.0)
          (asked (record { buf = all ++ text "\r" }) request_line lines key (text "\r") 2 h a
              (unfold header_section split_on text_eq in refl) refl
            ∙ past_end (record { buf = all ++ text "\r" }) (length all + 2) key
                (omega (arith, length-append all (text "\r")))),
    )

-- While the last of the bytes that have come in stand in a line that is not at its end, `pop` waits
-- for more and keeps what it has.
pub pop_partial :
    (p : HttpParser) (lines : List (List ℕ)) (partial : List ℕ)
    → All IsLine lines
    → IsLine partial
    → p.buf ≡ join lines ++ partial
    → pop p ≡ (not_ready, p)
unfolding pop
pop_partial p lines partial h l b =
    ap (λ t. pop_section p (header_section (split_on b'\n' t))) b
    ∙ ap (pop_section p) (
        header_section-lines lines partial h
        ∙ ap (after_lines lines) (no_end partial l)
        ∙ after_lines-none lines)
    ∙ unfold pop_section in refl

-- What an answer leaves of the buffer.
abbrev pub Settles : HttpParser → HttpParseResult × HttpParser → Type 0
Settles p (rejected reason, q) = q ≡ new
Settles p (not_found, q) = q ≡ new
Settles p (not_ready, q) = q ≡ p
Settles p (out_of_range, q) = q ≡ p
Settles p (websocket info, q) = q ≡ p

if-Settles :
    (p : HttpParser) (b : Bool) (x y : HttpParseResult × HttpParser)
    → Settles p x
    → Settles p y
    → Settles p (if b then x else y)
if-Settles p true x y hx hy = hx
if-Settles p false x y hx hy = hy

judge-Settles :
    (p : HttpParser) (pos : ℕ) (request_line : Text) (method url : List ℕ)
    (headers : Option (List (Text × Text)))
    → Settles p (judge p pos request_line method url headers)
unfolding judge upgrade
judge-Settles p pos request_line method url none = refl
judge-Settles p pos request_line method url (some headers) =
    if-Settles p (text_eq url (text "/")) _ _
      (if-Settles p
        (text_eq method (text "GET")
          && text_eq (get_or_empty (text "upgrade") headers) (text "websocket"))
        _ _ (if-Settles p (ltb (length p.buf) pos) _ _ refl refl) refl)
      refl

request-Settles :
    (p : HttpParser) (pos : ℕ) (request_line : Text) (parts : List (List ℕ))
    (headers : Option (List (Text × Text)))
    → Settles p (pop_request p pos request_line parts headers)
unfolding pop_request
request-Settles p pos request_line [] headers = refl
request-Settles p pos request_line (method ∷ []) headers = refl
request-Settles p pos request_line (method ∷ url ∷ []) headers = refl
request-Settles p pos request_line (method ∷ url ∷ version ∷ more) headers =
    judge-Settles p pos request_line method url headers

section-Settles :
    (p : HttpParser) (found : Option (List (List ℕ) × ℕ)) → Settles p (pop_section p found)
unfolding pop_section
section-Settles p none = refl
section-Settles p (some ([], pos)) = refl
section-Settles p (some (request_line ∷ lines, pos)) =
    request-Settles p pos request_line (split_on 32 request_line) (parse_headers [] lines)

-- `pop` empties the buffer exactly when it refuses the request, and otherwise keeps it as it is.
pub pop-Settles : (p : HttpParser) → Settles p (pop p)
unfolding pop
pop-Settles p = section-Settles p (header_section (split_on b'\n' p.buf))
