-- ===== src/Server/Threads/Crosstalk.antt =====
-- The clients of one server of ipc/server.rs do not hear each other: what a thread has written is
-- the answers to what its own client has sent, on every schedule.
mod Examples
use rust_commons.Prelude.{
  ℕ, ◌≤◌, ◌≡◌, refl, sym, ap, ◌∙◌, subst, Option, none, some, List, [], ◌∷◌, ◌++◌, append_assoc,
  append-nil, ok, length, Bool, true, false, if◌then◌else◌,
}
use rust_commons.StdIo.{Write}
use rust_commons.StdIo.Duplex.{Duplex, IsReliable}
use rust_commons.Frame.{u32_max, read_frame_with_limit}
use rust_commons.Frame.Exact.{IsInfallible}
use rust_commons.Frame.RoundTrip.{frame}
use rust_commons.Frame.Duplex.{read_frame_with_limit-keeps}
use rust_commons.Frame.Wire.{OnWire, OnWire-append, message_arrives, no_more_messages}
use rust_commons.Auth.{allows}
use rust_commons.Command.{auth, read_value, read_json}
use rust_commons.Server.{persistent, AcceptPolicy, Parts, dispatch_one, read_request}
use rust_commons.Server.Conversation.{request_read}
use rust_commons.Server.Replies.{replied}
use rust_commons.Server.Threads.{
  Phase, starting, serving, Thread, Action, begin_with, session_of, after_round, serve_turn,
  advance_in, advance, run_actions,
}
use rust_commons.Server.Threads.Local.{OrGone, IsLocal, AllHold, AllArrive, run_actions-IsKept}
use rust_commons.Server.Threads.Apart.{
  answers_to, answers_to-append, IsHandled, AllHandled, Asks, IsAnsweringOwn, spawned_answering,
  admitted,
}

module _ {S U J V E : Type 0} (p : Parts S U J V E) {wr : Write U} (both : Duplex p.rd wr)
    (never : IsInfallible J both.delivers) (sure : IsReliable wr)
    (back : (m : V) (bs : List ℕ) → p.js.serde.to_vec m ≡ ok bs → p.js.serde.from_slice bs ≡ ok m)
    (policy : AcceptPolicy) (small : policy.max_frame ≤ u32_max)
    (session : policy.session ≡ persistent) (effect : V → S → S) (answer : V → V) where
  open both use {delivers, appends}

  abbrev StillOwn : Option (Thread U) → Type 0
  StillOwn =
      OrGone p policy (Asks p both policy effect answer)
        (IsAnsweringOwn p both policy effect answer)

  -- The round in which the input of the client has ended.
  no_more_rounds :
      (t : Thread U) (state : S)
      → delivers.bytes t.conn.stream ≡ []
      → (after_round p policy t (dispatch_one p (session_of p policy t.conn state))).0 ≡ none
  unfolding dispatch_one read_request read_value read_json
  no_more_rounds t state e =
      let (r, ended) =
        no_more_messages J p.js.serde delivers never t.conn.max_frame t.conn.stream e in
      rw ended refl

  module _ (t : Thread U) (state : S) (body : V) (bodies : List V)
      (h : IsAnsweringOwn p both policy effect answer t) (payload others : List ℕ)
      (encodes : p.js.serde.to_vec body ≡ ok payload) (fits : length payload ≤ policy.max_frame)
      (cut : h.left ≡ frame payload ++ others)
      (more : OnWire p.js.serde policy.max_frame bodies others)
      (own : IsHandled p both policy effect answer body)
      (rest : AllHandled p both policy effect answer bodies) where
    -- The connection behind a round that serves a request.
    round_answered :
        (u : U) × ((after_round p policy t (dispatch_one p (session_of p policy t.conn state))).0
          ≡ some (record t { conn = record { stream = u; max_frame = policy.max_frame } }))
        × (appends.written u ≡ appends.written t.conn.stream ++ frame own.payload)
        × (delivers.bytes u ≡ others)
    round_answered =
        let (r, x, y) =
          message_arrives p.js.serde delivers back never policy.max_frame small body payload others
            t.conn.stream encodes fits (h.unread ∙ cut) in
        let x' : read_frame_with_limit p.js.serde p.rd t.conn.max_frame t.conn.stream
            ≡ (ok body, r) =
          rw h.capped x in
        let c = record t.conn { stream = r } in
        let (u, sends, wrote, kept) =
          replied p both sure policy.max_frame (answer body) own.payload c h.capped own.encodes
            own.fits in
        let run =
          request_read p (session_of p policy t.conn state) body r x'
          ∙ own.answered.replies (session_of p policy c state) _ sends in
        let quiet = read_frame_with_limit-keeps p.js.serde both t.conn.max_frame t.conn.stream in
        (
          u,
          ap (λ z. (after_round p policy t z).0) run,
          wrote
              ∙ ap (λ (l : List ℕ). l ++ frame own.payload)
                  (sym (ap (λ z. appends.written z.1) x') ∙ quiet),
          kept ∙ y,
        )

    round_keeps :
        StillOwn (after_round p policy t (dispatch_one p (session_of p policy t.conn state))).0
    round_keeps =
        let (u, e, wrote, unread) = round_answered in
        let kept : IsAnsweringOwn p both policy effect answer
            (record t { conn = record { stream = u; max_frame = policy.max_frame } }) =
          record {
            done = h.done ++ body ∷ [];
            todo = bodies;
            heard = h.heard ++ frame payload;
            left = others;
            sent = h.sent ++ frame own.payload;
            asked =
                h.asked
                ∙ (ap (λ (l : List ℕ). h.heard ++ l) cut
                    ∙ sym (append_assoc h.heard (frame payload) others));
            done_heard =
                OnWire-append p.js.serde policy.max_frame h.done (body ∷ []) h.heard (frame payload)
                  h.done_heard (payload, [], encodes, fits, sym (append-nil (frame payload)), refl);
            todo_left = more;
            unread = unread;
            answers_sent =
                subst (λ l. OnWire p.js.serde policy.max_frame l (h.sent ++ frame own.payload))
                  (sym (answers_to-append answer h.done body))
                  (OnWire-append p.js.serde policy.max_frame (answers_to answer h.done)
                    (answer body ∷ []) h.sent (frame own.payload) h.answers_sent
                    (
                      own.payload,
                      [],
                      own.encodes,
                      own.fits,
                      sym (append-nil (frame own.payload)),
                      refl,
                    ));
            written =
                wrote
                ∙ (ap (λ (l : List ℕ). l ++ frame own.payload) h.written
                    ∙ append_assoc (appends.written t.peer) h.sent (frame own.payload));
            capped = refl;
            handled = rest;
          } in
        subst StillOwn (sym e) kept

  round_local :
      (t : Thread U) (state : S) (todo : List V) (h : IsAnsweringOwn p both policy effect answer t)
      → OnWire p.js.serde policy.max_frame todo h.left
      → AllHandled p both policy effect answer todo
      → StillOwn (after_round p policy t (dispatch_one p (session_of p policy t.conn state))).0
  round_local t state [] h left own =
      subst StillOwn (sym (no_more_rounds t state (h.unread ∙ left))) tt
  round_local t state (body ∷ bodies) h (payload, others, encodes, fits, cut, more) (own, rest) =
      round_keeps t state body bodies h payload others encodes fits cut more own rest

  advanced_local :
      (t : Thread U) (state : S) (phase : Phase)
      → IsAnsweringOwn p both policy effect answer t
      → StillOwn (advance_in p policy phase t state).0
  advanced_local t state starting h =
      elim (allows p.creds policy.auth t.peer)
        as (λ (b : Bool).
          StillOwn
            (if◌then◌else◌ {A = Option (Thread U) × S} b
              (some (record t { phase = serving }), state)
              (none, (p.hooks.reject auth (session_of p policy t.conn state)).state)).0) [
                | true ↦ admitted p both policy effect answer t h
                | false ↦ tt
              ]
  advanced_local t state serving h =
      subst (λ mode. StillOwn (serve_turn p policy mode t state).0) (sym session)
        (round_local t state h.todo h h.todo_left h.handled)

  answering_local :
      IsLocal p policy
        (Asks p both policy effect answer)
        (IsAnsweringOwn p both policy effect answer)
  unfolding advance
  answering_local = record {
    spawned = spawned_answering p both policy effect answer;
    advanced = λ t state h. advanced_local t state t.phase h;
  }

  -- On every schedule of a persistent server that begins with no client, with a cap of at most
  -- `u32::MAX`: if serde_json decodes what it has encoded, no call on a stream fails, and every client
  -- sends, as frames within the cap, only requests that come to an answer of their own, within the cap
  -- and the same in every state of the daemon, then every thread that there is has read some first
  -- part of the requests of its own client, and has written the frames of the answers to these, in
  -- their order, and nothing else. So no client hears the answer to another.
  pub no_crosstalk :
      (actions : List (Action U)) (state : S)
      → AllArrive p policy
          (Asks p both policy effect answer)
          (IsAnsweringOwn p both policy effect answer)
          actions
      → AllHold p policy
          (Asks p both policy effect answer)
          (IsAnsweringOwn p both policy effect answer)
          (run_actions p policy actions (begin_with state)).threads
  no_crosstalk actions state arrive =
      (run_actions-IsKept p policy (Asks p both policy effect answer)
        (IsAnsweringOwn p both policy effect answer) answering_local actions (begin_with state)
        arrive (record { threads = tt; in_hand = tt })).threads
