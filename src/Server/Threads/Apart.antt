-- ===== src/Server/Threads/Apart.antt =====
-- A thread of ipc/server.rs that has answered its own client: what it has read of the requests, and
-- what it has written.
use rust_commons.Prelude.{ℕ, ◌≤◌, ◌≡◌, refl, sym, ap, List, [], ◌∷◌, ◌++◌, append-nil, ok, length}
use rust_commons.StdIo.{Write}
use rust_commons.StdIo.Duplex.{Duplex}
use rust_commons.Frame.Wire.{OnWire}
use rust_commons.Server.{AcceptPolicy, Parts}
use rust_commons.Server.Replies.{IsAnswered}
use rust_commons.Server.Threads.{serving, Thread, new_thread}

abbrev pub answers_to : {V : Type 0} → (V → V) → List V → List V
answers_to answer [] = []
answers_to answer (body ∷ bodies) = answer body ∷ answers_to answer bodies

pub answers_to-append :
    {V : Type 0} (answer : V → V) (bodies : List V) (body : V)
    → answers_to answer (bodies ++ body ∷ []) ≡ answers_to answer bodies ++ answer body ∷ []
answers_to-append answer [] body = refl
answers_to-append answer (b ∷ bodies) body =
    ap (λ (l : List _). answer b ∷ l) (answers_to-append answer bodies body)

module _ {S U J V E : Type 0} (p : Parts S U J V E) {wr : Write U} (both : Duplex p.rd wr)
    (policy : AcceptPolicy) (effect : V → S → S) (answer : V → V) where
  open both use {delivers, appends}

  -- The request comes to an answer of its own, whatever the state of the daemon, and the answer is
  -- within the cap.
  pub record IsHandled (body : V) : Type 0 where
    pub answered : IsAnswered p wr effect (λ b state. answer b) body
    pub payload : List ℕ
    pub encodes : p.js.serde.to_vec (answer body) ≡ ok payload
    pub fits : length payload ≤ policy.max_frame

  abbrev pub AllHandled : List V → Type 0
  AllHandled [] = Unit {0}
  AllHandled (body ∷ bodies) = IsHandled body × AllHandled bodies

  -- A client that sends requests of that kind and closes its end.
  pub record Asks (stream : U) : Type 0 where
    pub bodies : List V
    pub on_wire : OnWire p.js.serde policy.max_frame bodies (delivers.bytes stream)
    pub handled : AllHandled bodies

  -- A thread between two requests of its client: those that it has read are `done`, and it has
  -- written the frames of the answers to them, in their order, and nothing else.
  pub record IsAnsweringOwn (t : Thread U) : Type 0 where
    pub done : List V
    pub todo : List V
    pub heard : List ℕ
    pub left : List ℕ
    pub sent : List ℕ
    pub asked : delivers.bytes t.peer ≡ heard ++ left
    pub done_heard : OnWire p.js.serde policy.max_frame done heard
    pub todo_left : OnWire p.js.serde policy.max_frame todo left
    pub unread : delivers.bytes t.conn.stream ≡ left
    pub answers_sent : OnWire p.js.serde policy.max_frame (answers_to answer done) sent
    pub written : appends.written t.conn.stream ≡ appends.written t.peer ++ sent
    pub capped : t.conn.max_frame ≡ policy.max_frame
    pub handled : AllHandled todo

  pub spawned_answering : (stream : U) → Asks stream → IsAnsweringOwn (new_thread p policy stream)
  spawned_answering stream a = record {
    done = [];
    todo = a.bodies;
    heard = [];
    left = delivers.bytes stream;
    sent = [];
    asked = refl;
    done_heard = refl;
    todo_left = a.on_wire;
    unread = refl;
    answers_sent = refl;
    written = sym (append-nil (appends.written stream));
    capped = refl;
    handled = a.handled;
  }

  pub admitted : (t : Thread U) → IsAnsweringOwn t → IsAnsweringOwn (record t { phase = serving })
  admitted t h = record {
    done = h.done;
    todo = h.todo;
    heard = h.heard;
    left = h.left;
    sent = h.sent;
    asked = h.asked;
    done_heard = h.done_heard;
    todo_left = h.todo_left;
    unread = h.unread;
    answers_sent = h.answers_sent;
    written = h.written;
    capped = h.capped;
    handled = h.handled;
  }
