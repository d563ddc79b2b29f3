-- ===== src/Web/Routes.antt =====
-- `do_GET`, `_serve_html` and `_serve_json` of broker/conveyor_web.py.
use embeded_convey_belt.Prelude.{
  ℕ, ◌≡◌, refl, ap, ◌∙◌, ◌||◌, Option, none, some, List, [], ◌∷◌, ◌++◌, take, length, if◌then◌else◌,
  arith,
}
use embeded_convey_belt.Py.{Text, text}
use embeded_convey_belt.Py.Int.{show_nat}
use embeded_convey_belt.Py.Str.{text_eq}
use embeded_convey_belt.Web.{
  Bytes, Hub, max_history, Action, stored, broadcasted, joined, served, left_on_error, store,
  broadcast, join, step, run,
}
use embeded_convey_belt.Web.History.{recorded, run-history}

-- What is sent: a response with its body, or the head of an event stream that `_serve_sse` goes on with.
pub record Response : Type 0 where
  pub status : ℕ
  pub headers : List (Text × Text)
  pub body : Bytes

pub data Served : Type 0 where
  whole : Response → Served
  stream_of_events : List (Text × Text) → Served
  error_page : ℕ → Served

abbrev pub sized : Text → Bytes → Response
sized content_type body = record {
  status = 200;
  headers =
      (text "Content-Type", content_type) ∷ (text "Content-Length", show_nat 10 (length body)) ∷ [];
  body = body;
}

abbrev pub stream_headers : List (Text × Text)
stream_headers =
    (text "Content-Type", text "text/event-stream")
    ∷ (text "Cache-Control", text "no-cache")
    ∷ (text "Connection", text "keep-alive")
    ∷ (text "X-Accel-Buffering", text "no")
    ∷ []

module _ {E : Type 0} (json : E → Bytes) where
  abbrev pub json_items : List E → Bytes
  json_items [] = []
  json_items (ev ∷ []) = json ev
  json_items (ev ∷ ev' ∷ evs) = json ev ++ b',' ∷ json_items (ev' ∷ evs)

  abbrev pub json_current : Option E → Bytes
  json_current none = text "{}"
  json_current (some ev) = json ev

  -- json.dumps({"current": dict(_current), "history": list(_history)}, separators=(",", ":"))
  abbrev pub state_json : Option E → List E → Bytes
  state_json current history =
      text "{\"current\":"
      ++ (json_current current ++ (text ",\"history\":[" ++ (json_items history ++ text "]}")))

  -- `do_GET`; `html` is the encoded page.
  unfoldable pub do_get : Bytes → Text → Hub E → Served
  do_get html path hub =
      if text_eq path (text "/") || text_eq path (text "/index.html")
      then whole (sized (text "text/html; charset=utf-8") html)
      else if text_eq path (text "/events")
      then stream_of_events stream_headers
      else if text_eq path (text "/api/state")
      then whole (sized (text "application/json") (state_json hub.current hub.history))
      else error_page 404

-- The shared state at the start.
abbrev pub opened : {E : Type 0} → Hub E
opened = record { current = none; history = []; queues = λ i. []; next = 0; clients = [] }

abbrev pub newest : {E : Type 0} → List E → Option E
newest [] = none
newest (ev ∷ evs) = some ev

current_run :
    {E : Type 0} (json : E → Bytes) (actions : List (Action E)) (hub : Hub E) (all : List E)
    → hub.current ≡ newest all
    → (run json actions hub).0.current ≡ newest (recorded actions all)
unfolding run step store broadcast join
current_run json [] hub all h = h
current_run json (stored ev ∷ more) hub all h =
    current_run json more (step json (stored ev) hub).0 (ev ∷ all) refl
current_run json (broadcasted ev ∷ more) hub all h =
    current_run json more (step json (broadcasted ev) hub).0 all h
current_run json (joined ∷ more) hub all h = current_run json more (step json joined hub).0 all h
current_run json (served i ∷ more) hub all h =
    current_run json more (step json (served i) hub).0 all h
current_run json (left_on_error i ∷ more) hub all h =
    current_run json more (step json (left_on_error i) hub).0 all h

-- After any sequence of actions from the start, `/api/state` is answered by the JSON of the newest
-- stored event and of the 200 newest, the newest first, with the length of that body in its header.
pub do_get-run :
    {E : Type 0} (json : E → Bytes) (html : Bytes) (actions : List (Action E))
    → do_get json html (text "/api/state") (run json actions opened).0
      ≡ whole (
          sized (text "application/json") (
            state_json json
              (newest (recorded actions []))
              (take max_history (recorded actions []))))
unfolding do_get
do_get-run json html actions =
    let past = (run-history json actions opened (omega arith) (λ i. omega arith)).0 in
    let now = current_run json actions opened [] refl in
    ap
      (λ h.
        whole
          (sized (text "application/json") (state_json json (run json actions opened).0.current h)))
      past
    ∙ ap
        (λ c. whole (
          sized (text "application/json")
            (state_json json c (take max_history (recorded actions [])))))
        now
