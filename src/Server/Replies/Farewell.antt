-- ===== src/Server/Replies/Farewell.antt =====
-- A command of ipc/server.rs that has streamed its replies and hangs up, behind other requests of
-- the same client.
use rust_commons.Prelude.{
  ℕ, suc, ◌+◌, ◌-◌, ◌≤◌, ◌<◌, ◌≡◌, refl, sym, ap, ◌∙◌, some, List, [], ◌∷◌, ◌++◌, ok, err, Str,
  length, arith, append_assoc, append-nil, then_run-eq-ok, length-append,
}
use rust_commons.StdIo.{Read, Write, Delivers, Appends}
use rust_commons.StdIo.Duplex.{Duplex, IsReliable}
use rust_commons.Frame.{
  unexpected_eof, read_frame_with_limit, write_frame_with_limit, header_len, u32_max,
}
use rust_commons.Frame.Exact.{IsInfallible}
use rust_commons.Frame.Sequence.{read_messages, write_messages, write_messages-appends}
use rust_commons.Frame.Duplex.{read_frame_with_limit-keeps}
use rust_commons.Frame.RoundTrip.{frame}
use rust_commons.Frame.Wire.{
  OnWire, OnWire-split, write_messages-split, messages_arrive, no_more_messages,
}
use rust_commons.Auth.{Auth}
use rust_commons.Auth.Policy.{Permits, allows_iff}
use rust_commons.Command.{
  Connection, Session, Command, hangup, json_type_field, reply, get, connect_stream,
}
use rust_commons.Server.{
  persistent, Parts, run_named, run_command, after_execute, after_dispatch, end_persistent,
  is_closed, request_loop, handle_conn,
}
use rust_commons.Server.Conversation.{replay, one_received, request_read}
use rust_commons.Server.Replies.{answers, AllAnswered, replied, answered, length-answers}

module _ {S U J V E : Type 0} (p : Parts S U J V E) (wr : Write U) (last farewell : V)
    (leave : S → S) where
  -- The request is for a command that replies once, with the farewell, and returns
  -- `IpcError::Hangup`.
  pub record IsFarewell : Type 0 where
    pub name : Str
    pub cmd : Command S U J V
    pub named : json_type_field p.js last ≡ some name
    pub found : get p.router name ≡ some cmd
    pub hangs :
        (s : Session S U) (c : Connection U)
        → reply p.js.serde wr farewell s.conn ≡ (ok tt, c)
        → cmd.execute last s ≡ (err hangup, record { state = leave s.state; conn = c })

  -- The session ends behind it, without a call of the error handler.
  farewell_ends :
      (bye : IsFarewell) (s t : Session S U) (r : U) (fuel : ℕ)
      → read_frame_with_limit p.js.serde p.rd s.conn.max_frame s.conn.stream ≡ (ok last, r)
      → bye.cmd.execute last (record s { conn = record s.conn { stream = r } }) ≡ (err hangup, t)
      → request_loop p (suc fuel) s ≡ some t
  unfolding request_loop end_persistent is_closed
  farewell_ends bye s t r fuel h hung =
      let s' = record s { conn = record s.conn { stream = r } } in
      let named : run_named p last (json_type_field p.js last) s'
          ≡ after_execute p (bye.cmd.execute last s') =
        ap (λ o. run_named p last o s') bye.named
        ∙ ap (λ o. run_command p bye.name last o s') bye.found in
      let dispatch = request_read p s last r h ∙ (named ∙ ap (after_execute p) hung) in
      ap (λ z. after_dispatch p z (λ v. request_loop p fuel v)) dispatch

module _ {S U J V E W R : Type 0} (p : Parts S U J V E) {wr : Write U} (both : Duplex p.rd wr)
    (never : IsInfallible J both.delivers) (sure : IsReliable wr) {wc : Write W} (a : Appends wc)
    {rc : Read R} (dc : Delivers rc) (never_c : IsInfallible J dc)
    (back : (m : V) (bs : List ℕ) → p.js.serde.to_vec m ≡ ok bs → p.js.serde.from_slice bs ≡ ok m)
    (max_frame : ℕ) (small : max_frame ≤ u32_max) (effect : V → S → S) (answer : V → S → V)
    (last farewell : V) (leave : S → S) (bye : IsFarewell p wr last farewell leave) where
  open both use {delivers, appends}

  -- The end of the session at the request that hangs up.
  farewell_said :
      (s : Session S U) (w w' : W) (rest payload : List ℕ) (fuel : ℕ)
      → s.conn.max_frame ≡ max_frame
      → write_frame_with_limit p.js.serde wc last max_frame w ≡ (ok tt, w')
      → a.written w ++ delivers.bytes s.conn.stream ≡ a.written w' ++ rest
      → p.js.serde.to_vec farewell ≡ ok payload
      → length payload ≤ max_frame
      → (t : Session S U) × (request_loop p (suc fuel) s ≡ some t)
        × (t.state ≡ leave s.state)
        × (delivers.bytes t.conn.stream ≡ rest)
        × (appends.written t.conn.stream ≡ appends.written s.conn.stream ++ frame payload)
  farewell_said s w w' rest payload fuel m h e encodes fits =
      let (r, x, y) = one_received p delivers never a back max_frame small s last w w' rest m h e in
      let s' = record s { conn = record s.conn { stream = r } } in
      let (v, sends, wrote, kept) =
        replied p both sure max_frame farewell payload s'.conn m encodes fits in
      let t : Session S U = record {
        state = leave s.state;
        conn = record { stream = v; max_frame = max_frame };
      } in
      let quiet = read_frame_with_limit-keeps p.js.serde both s.conn.max_frame s.conn.stream in
      (
        t,
        farewell_ends p wr last farewell leave bye s t r fuel x (bye.hangs s' t.conn sends),
        refl,
        kept ∙ y,
        wrote
            ∙ ap (λ (l : List ℕ). l ++ frame payload)
                (sym (ap (λ z. appends.written z.1) x) ∙ quiet),
      )

  -- What the client reads of the frames.
  farewell_heard :
      (bodies : List V) (state : S) (sent : List ℕ) (r : R)
      → OnWire p.js.serde max_frame (answers effect answer bodies state ++ farewell ∷ []) sent
      → dc.bytes r ≡ sent
      → (r₁ : R) × (r₂ : R) × (read_messages p.js.serde rc (length bodies + 1) max_frame r
          ≡ (ok (answers effect answer bodies state ++ farewell ∷ []), r₁))
        × (read_frame_with_limit p.js.serde rc max_frame r₁
            ≡ (err (unexpected_eof 0 header_len), r₂))
  farewell_heard bodies state sent r on_wire arrives =
      let all = answers effect answer bodies state ++ farewell ∷ [] in
      let count : length bodies + 1 ≡ length all = omega (
        arith,
        length-append (answers effect answer bodies state) (farewell ∷ []),
        length-answers effect answer bodies state,
      ) in
      let (r₁, reads, done) =
        messages_arrive p.js.serde dc back never_c max_frame small all sent [] r on_wire
          (arrives ∙ sym (append-nil sent)) in
      let (r₂, ended) = no_more_messages J p.js.serde dc never_c max_frame r₁ done in
      (r₁, r₂, ap (λ n. read_messages p.js.serde rc n max_frame r) count ∙ reads, ended)

  -- A client sends requests and then one for a command that says farewell and hangs up, and perhaps
  -- more behind it; both ends have the same cap, at most `u32::MAX`. If the policy permits the
  -- client, serde_json decodes what it has encoded, no call on either end's stream fails, each
  -- request before the last comes to an effect on the state and one reply, and all replies, the
  -- farewell with them, can be encoded within the cap, then the persistent session ends at the
  -- farewell; what the client has sent behind it is left unread; the client reads the replies in
  -- their order, the farewell last, and then the end of the stream in front of a header: no error
  -- frame follows. A fuel above the number of the requests before the last is enough.
  pub farewell_closes :
      (bodies : List V) (stream : U) (state : S) (policy : Auth) (fuel : ℕ) (w w' : W)
      (rest sent : List ℕ) (r : R)
      → Permits p.creds stream policy
      → AllAnswered p wr effect answer bodies
      → write_messages p.js.serde wc (bodies ++ last ∷ []) max_frame w ≡ (ok tt, w')
      → a.written w ++ delivers.bytes stream ≡ a.written w' ++ rest
      → OnWire p.js.serde max_frame (answers effect answer bodies state ++ farewell ∷ []) sent
      → dc.bytes r ≡ sent
      → length bodies < fuel
      → (t : Session S U) × (r₁ : R) × (r₂ : R) × (handle_conn p fuel policy persistent max_frame
            stream state
          ≡ some t)
        × (t.state ≡ leave (replay effect bodies state))
        × (delivers.bytes t.conn.stream ≡ rest)
        × (appends.written t.conn.stream ≡ appends.written stream ++ sent)
        × (read_messages p.js.serde rc (length bodies + 1) max_frame r
            ≡ (ok (answers effect answer bodies state ++ farewell ∷ []), r₁))
        × (read_frame_with_limit p.js.serde rc max_frame r₁
            ≡ (err (unexpected_eof 0 header_len), r₂))
  unfolding handle_conn write_messages
  farewell_closes bodies stream state policy fuel w w' rest sent r permitted plain h e on_wire
        arrives enough =
      let granted = (allows_iff p.creds stream policy).1 permitted in
      let more = fuel - suc (length bodies) in
      let rounds : fuel ≡ length bodies + suc more = omega arith in
      let begin : Session S U = record { state = state; conn = connect_stream stream max_frame } in
      let (cs, ds, cut, first, (payload, none_left, encodes, fits, q, z)) =
        OnWire-split p.js.serde max_frame (answers effect answer bodies state) (farewell ∷ []) sent
          on_wire in
      let (w₁, written₁, h₁) =
        write_messages-split p.js.serde wc max_frame bodies (last ∷ []) w w' h in
      let (others, f) = write_messages-appends p.js.serde a (last ∷ []) max_frame w₁ w' h₁ in
      let g : a.written w' ++ rest ≡ a.written w₁ ++ (others ++ rest) =
        ap (λ (l : List ℕ). l ++ rest) f ∙ append_assoc (a.written w₁) others rest in
      let (s, x, y, left, n, v) =
        answered p both never sure a back max_frame small effect answer bodies begin w w₁ (suc more)
          cs (others ++ rest) plain refl written₁ (e ∙ g) first in
      let (u, w₂, h₂, h₃) =
        then_run-eq-ok (write_frame_with_limit p.js.serde wc last max_frame w₁) _ h₁ in
      let same : w₂ ≡ w' = ap (λ x. x.1) h₃ in
      let (t, x', y', left', v') =
        farewell_said s w₁ w₂ rest payload more n h₂
          (ap (λ (l : List ℕ). a.written w₁ ++ l) left
            ∙ (sym g ∙ ap (λ k. a.written k ++ rest) (sym same)))
          encodes fits in
      let (r₁, r₂, reads, ended) = farewell_heard bodies state sent r on_wire arrives in
      let tail : ds ≡ frame payload =
        q ∙ (ap (λ l. frame payload ++ l) z ∙ append-nil (frame payload)) in
      (
        t,
        r₁,
        r₂,
        rw granted (ap (λ n. request_loop p n begin) rounds ∙ (x ∙ x')),
        y' ∙ ap leave y,
        left',
        rw (v', v, cut, tail, append_assoc) refl,
        reads,
        ended,
      )
