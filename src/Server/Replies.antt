-- ===== src/Server/Replies.antt =====
-- What a client of ipc/server.rs gets back: the replies of a session, on the stream that the
-- requests came from, as the client's own reading of ipc/frame.rs sees them.
pub mod Farewell
use rust_commons.Prelude.{
  ℕ, zero, suc, ◌+◌, ◌-◌, ◌≤◌, ◌<◌, ◌≡◌, refl, sym, ap, ◌∙◌, Bool, true, false, Option, none, some,
  List, [], ◌∷◌, ◌++◌, Result, ok, err, Str, length, arith, then_run-eq-ok, append-injective,
  append_assoc, append-nil,
}
use rust_commons.StdIo.{Read, Write, Delivers, Appends}
use rust_commons.StdIo.Duplex.{Duplex, IsReliable}
use rust_commons.Frame.{
  FrameError, read_frame_with_limit, write_frame_with_limit, header_len, u32_max,
}
use rust_commons.Frame.Exact.{IsInfallible}
use rust_commons.Frame.Sequence.{read_messages, write_messages, write_messages-appends}
use rust_commons.Frame.Duplex.{read_frame_with_limit-keeps, message_goes_out}
use rust_commons.Frame.RoundTrip.{frame}
use rust_commons.Frame.Wire.{OnWire, OnWire-append, messages_arrive}
use rust_commons.Auth.{Auth, allows}
use rust_commons.Auth.Policy.{Permits, allows_iff}
use rust_commons.Command.{
  Connection, Session, Command, IpcError, hangup, json_type_field, reply, get, connect_stream,
}
use rust_commons.Server.{SessionMode, persistent, Parts, run_named, request_loop, handle_conn}
use rust_commons.Server.Conversation.{replay, one_received, request_served, input_ended}

-- The replies to requests, in their order.
unfoldable pub answers : {S V : Type 0} → (V → S → S) → (V → S → V) → List V → S → List V
answers effect answer [] state = []
answers effect answer (body ∷ bodies) state =
    answer body state ∷ answers effect answer bodies (effect body state)

module _ {S U J V E : Type 0} (p : Parts S U J V E) (wr : Write U) (effect : V → S → S)
    (answer : V → S → V) where
  -- The request, if its answer can be sent, comes to that answer, given to `conn.reply` once, and to
  -- its effect on the state of the daemon, and the session goes on.
  pub record IsAnswered (body : V) : Type 0 where
    pub replies :
        (s : Session S U) (c : Connection U)
        → reply p.js.serde wr (answer body s.state) s.conn ≡ (ok tt, c)
        → run_named p body (json_type_field p.js body) s
          ≡ (ok tt, record { state = effect body s.state; conn = c })

  abbrev pub AllAnswered : List V → Type 0
  AllAnswered [] = Unit {0}
  AllAnswered (body ∷ bodies) = IsAnswered body × AllAnswered bodies

module _ {S U J V E : Type 0} (p : Parts S U J V E) {wr : Write U} (both : Duplex p.rd wr)
    (sure : IsReliable wr) (max_frame : ℕ) where
  open both use {delivers, appends}

  -- A reply within the cap goes out behind what was written before.
  pub replied :
      (msg : V) (payload : List ℕ) (c : Connection U)
      → c.max_frame ≡ max_frame
      → p.js.serde.to_vec msg ≡ ok payload
      → length payload ≤ max_frame
      → (u : U) × (reply p.js.serde wr msg c
          ≡ (ok tt, record { stream = u; max_frame = max_frame }))
        × (appends.written u ≡ appends.written c.stream ++ frame payload)
        × (delivers.bytes u ≡ delivers.bytes c.stream)
  unfolding reply
  replied msg payload c m encodes fits =
      let (u, x, y, z) =
        message_goes_out p.js.serde both sure msg payload max_frame c.stream encodes fits in
      (u, rw (m, x) refl, y, z)

module _ {S U J V E W : Type 0} (p : Parts S U J V E) {wr : Write U} (both : Duplex p.rd wr)
    (never : IsInfallible J both.delivers) (sure : IsReliable wr) {wc : Write W} (a : Appends wc)
    (back : (m : V) (bs : List ℕ) → p.js.serde.to_vec m ≡ ok bs → p.js.serde.from_slice bs ≡ ok m)
    (max_frame : ℕ) (small : max_frame ≤ u32_max) where
  open both use {delivers, appends}

  module _ (effect : V → S → S) (answer : V → S → V) where
    -- The session behind one request that is answered.
    answered_one :
        (s : Session S U) (body : V) (w w' : W) (rest payload : List ℕ) (fuel : ℕ)
        → IsAnswered p wr effect answer body
        → s.conn.max_frame ≡ max_frame
        → write_frame_with_limit p.js.serde wc body max_frame w ≡ (ok tt, w')
        → a.written w ++ delivers.bytes s.conn.stream ≡ a.written w' ++ rest
        → p.js.serde.to_vec (answer body s.state) ≡ ok payload
        → length payload ≤ max_frame
        → (t : Session S U) × (request_loop p (suc fuel) s ≡ request_loop p fuel t)
          × (t.state ≡ effect body s.state)
          × (delivers.bytes t.conn.stream ≡ rest)
          × (t.conn.max_frame ≡ max_frame)
          × (appends.written t.conn.stream ≡ appends.written s.conn.stream ++ frame payload)
    answered_one s body w w' rest payload fuel plain m h e encodes fits =
        let (r, x, y) =
          one_received p delivers never a back max_frame small s body w w' rest m h e in
        let s' = record s { conn = record s.conn { stream = r } } in
        let (v, sends, wrote, kept) =
          replied p both sure max_frame (answer body s.state) payload s'.conn m encodes fits in
        let c : Connection U = record { stream = v; max_frame = max_frame } in
        let run = plain.replies s' c sends in
        let quiet = read_frame_with_limit-keeps p.js.serde both s.conn.max_frame s.conn.stream in
        (
          record { state = effect body s.state; conn = c },
          request_served p s body r fuel x (ap (λ z. z.0) run)
              ∙ ap (λ z. request_loop p fuel z.1) run,
          refl,
          kept ∙ y,
          refl,
          wrote
              ∙ ap (λ (l : List ℕ). l ++ frame payload)
                  (sym (ap (λ z. appends.written z.1) x) ∙ quiet),
        )

    -- The session behind requests that are answered, and what it has written by then.
    pub answered :
        (bodies : List V) (s : Session S U) (w w' : W) (fuel : ℕ) (sent rest : List ℕ)
        → AllAnswered p wr effect answer bodies
        → s.conn.max_frame ≡ max_frame
        → write_messages p.js.serde wc bodies max_frame w ≡ (ok tt, w')
        → a.written w ++ delivers.bytes s.conn.stream ≡ a.written w' ++ rest
        → OnWire p.js.serde max_frame (answers effect answer bodies s.state) sent
        → (t : Session S U) × (request_loop p (length bodies + fuel) s ≡ request_loop p fuel t)
          × (t.state ≡ replay effect bodies s.state)
          × (delivers.bytes t.conn.stream ≡ rest)
          × (t.conn.max_frame ≡ max_frame)
          × (appends.written t.conn.stream ≡ appends.written s.conn.stream ++ sent)
    unfolding write_messages replay answers
    answered [] s w w' fuel sent rest plain m h e on_wire = (
      s,
      ap (λ n. request_loop p n s) (omega arith),
      refl,
      (append-injective (a.written w) (a.written w) refl
          (e ∙ ap (λ x. a.written x.1 ++ rest) (sym h))).1,
      m,
      sym (append-nil (appends.written s.conn.stream))
          ∙ ap (λ (l : List ℕ). appends.written s.conn.stream ++ l) (sym on_wire),
    )
    answered (body ∷ bodies) s w w' fuel sent rest (first_plain, plain) m h e
          (payload, later, encodes, fits, q, on_wire) =
        let (u, w₁, first, next) =
          then_run-eq-ok (write_frame_with_limit p.js.serde wc body max_frame w) _ h in
        let (others, f) = write_messages-appends p.js.serde a bodies max_frame w₁ w' next in
        let g : a.written w' ++ rest ≡ a.written w₁ ++ (others ++ rest) =
          ap (λ (l : List ℕ). l ++ rest) f ∙ append_assoc (a.written w₁) others rest in
        let (t, x, y, z, n, v) =
          answered_one s body w w₁ (others ++ rest) payload (length bodies + fuel) first_plain m
            first (e ∙ g) encodes fits in
        let (t', x', y', z', n', v') =
          answered bodies t w₁ w' fuel later rest plain n next
            (ap (λ (l : List ℕ). a.written w₁ ++ l) z ∙ sym g) (rw y on_wire) in
        (
          t',
          ap (λ n. request_loop p n s) (omega arith) ∙ (x ∙ x'),
          y' ∙ ap (λ z. replay effect bodies z) y,
          z',
          n',
          rw (v', v, q, append_assoc) refl,
        )

pub length-answers :
    {S V : Type 0} (effect : V → S → S) (answer : V → S → V) (bodies : List V) (state : S)
    → length (answers effect answer bodies state) ≡ length bodies
unfolding answers
length-answers effect answer [] state = refl
length-answers effect answer (body ∷ bodies) state =
    ap suc (length-answers effect answer bodies (effect body state))

module _ {S U J V E W R : Type 0} (p : Parts S U J V E) {wr : Write U} (both : Duplex p.rd wr)
    (never : IsInfallible J both.delivers) (sure : IsReliable wr) {wc : Write W} (a : Appends wc)
    {rc : Read R} (dc : Delivers rc) (never_c : IsInfallible J dc)
    (back : (m : V) (bs : List ℕ) → p.js.serde.to_vec m ≡ ok bs → p.js.serde.from_slice bs ≡ ok m)
    (max_frame : ℕ) (small : max_frame ≤ u32_max) (effect : V → S → S) (answer : V → S → V) where
  open both use {delivers, appends}

  -- The client sends requests one behind another, with the cap of the server, which is at most
  -- `u32::MAX`, and closes its end; it reads the replies later, with that cap. If the policy
  -- permits the client, serde_json decodes what it has encoded, no call on either end's stream
  -- fails, each request comes to an effect on the state and one reply, and the replies can be
  -- encoded within the cap, then a persistent session ends; it has written the frames of the
  -- replies and nothing else; the client reads as many messages as it has sent, the reply to each
  -- request in the order in which they were sent, and no byte is left behind them. A fuel above the
  -- number of the requests is enough.
  pub replies_in_order :
      (bodies : List V) (stream : U) (state : S) (policy : Auth) (fuel : ℕ) (w w' : W)
      (sent : List ℕ) (r : R)
      → Permits p.creds stream policy
      → AllAnswered p wr effect answer bodies
      → write_messages p.js.serde wc bodies max_frame w ≡ (ok tt, w')
      → a.written w ++ delivers.bytes stream ≡ a.written w'
      → OnWire p.js.serde max_frame (answers effect answer bodies state) sent
      → dc.bytes r ≡ sent
      → length bodies < fuel
      → (t : Session S U) × (r' : R) × (handle_conn p fuel policy persistent max_frame stream state
          ≡ some t)
        × (t.state ≡ replay effect bodies state)
        × (appends.written t.conn.stream ≡ appends.written stream ++ sent)
        × (read_messages p.js.serde rc (length bodies) max_frame r
            ≡ (ok (answers effect answer bodies state), r'))
        × (dc.bytes r' ≡ [])
  unfolding handle_conn
  replies_in_order bodies stream state policy fuel w w' sent r permitted plain h e on_wire arrives
        enough =
      let granted = (allows_iff p.creds stream policy).1 permitted in
      let more = fuel - suc (length bodies) in
      let begin : Session S U = record { state = state; conn = connect_stream stream max_frame } in
      let (s, x, y, z, n, v) =
        answered p both never sure a back max_frame small effect answer bodies begin w w' (suc more)
          sent [] plain refl h (e ∙ sym (append-nil (a.written w'))) on_wire in
      let (u, x', left) = input_ended p delivers never s more z in
      let quiet = read_frame_with_limit-keeps p.js.serde both s.conn.max_frame s.conn.stream in
      let rounds : fuel ≡ length bodies + suc more = omega arith in
      let (r', reads, done) =
        messages_arrive p.js.serde dc back never_c max_frame small
          (answers effect answer bodies state) sent [] r on_wire
          (arrives ∙ sym (append-nil sent)) in
      (
        record s { conn = record s.conn { stream = u } },
        r',
        rw granted (ap (λ n. request_loop p n begin) rounds ∙ x ∙ x'),
        y,
        ap (λ z. appends.written z) (sym left) ∙ (quiet ∙ v),
        ap (λ n. read_messages p.js.serde rc n max_frame r)
              (sym (length-answers effect answer bodies state))
            ∙ reads,
        done,
      )
