-- ===== src/Server/Conversation.antt =====
-- A client of ipc/frame.rs and a session of ipc/server.rs: requests that are sent are served.
mod Examples
use rust_commons.Prelude.{
  ℕ, zero, suc, ◌+◌, ◌≤◌, ◌<◌, ◌≡◌, refl, sym, ap, ◌∙◌, Bool, true, false, Option, none, some, List,
  [], ◌∷◌, ◌++◌, Result, ok, err, length, arith, then_run-eq-ok, append-injective, append_assoc,
  append-nil, ◌-◌,
}
use rust_commons.StdIo.{Read, Write, Delivers, Appends}
use rust_commons.Frame.{
  FrameError, read_frame_bytes, read_frame_with_limit, write_frame_with_limit, header_len, u32_max,
}
use rust_commons.Frame.Exact.{IsInfallible, read_exact_short}
use rust_commons.Frame.RoundTrip.{frame_round_trip}
use rust_commons.Frame.Sequence.{write_messages, write_messages-appends}
use rust_commons.Auth.{Auth, allows}
use rust_commons.Auth.Policy.{Permits, allows_iff}
use rust_commons.Command.{Session, json_type_field, read_value, read_json, connect_stream}
use rust_commons.Server.{
  SessionMode, persistent, Parts, read_request, run_named, dispatch_one, after_dispatch,
  end_persistent, is_closed, request_loop, handle_conn,
}

-- The effects of requests, in their order.
unfoldable pub replay : {S V : Type 0} → (V → S → S) → List V → S → S
replay effect [] state = state
replay effect (body ∷ bodies) state = replay effect bodies (effect body state)

module _ {S U J V E : Type 0} (p : Parts S U J V E) (d : Delivers p.rd) (effect : V → S → S) where
  -- What each request comes to: the session goes on, the state of the daemon has the effect of the
  -- request, and no byte of the peer is taken.
  pub record IsEffect : Type 0 where
    pub served :
        (body : V) (s : Session S U) → (run_named p body (json_type_field p.js body) s).0 ≡ ok tt
    pub state :
        (body : V) (s : Session S U)
        → (run_named p body (json_type_field p.js body) s).1.state ≡ effect body s.state
    pub unread :
        (body : V) (s : Session S U)
        → d.bytes (run_named p body (json_type_field p.js body) s).1.conn.stream
          ≡ d.bytes s.conn.stream
    pub max_frame :
        (body : V) (s : Session S U)
        → (run_named p body (json_type_field p.js body) s).1.conn.max_frame ≡ s.conn.max_frame

module _ {S U J V E : Type 0} (p : Parts S U J V E) where
  pub request_read :
      (s : Session S U) (body : V) (r : U)
      → read_frame_with_limit p.js.serde p.rd s.conn.max_frame s.conn.stream ≡ (ok body, r)
      → dispatch_one p s
        ≡ run_named p body
            (json_type_field p.js body)
            (record s { conn = record s.conn { stream = r } })
  unfolding dispatch_one read_request read_value read_json
  request_read s body r e = rw e

  dispatched :
      (x : Result (FrameError J) (Unit {0}) × Session S U) (f : Session S U → Option (Session S U))
      → x.0 ≡ ok tt
      → after_dispatch p x f ≡ f x.1
  dispatched (ok _, s) f h = refl
  dispatched (err e, s) f h = cc

  -- A request that has been read and served is behind the session.
  pub request_served :
      (s : Session S U) (body : V) (r : U) (fuel : ℕ)
      → read_frame_with_limit p.js.serde p.rd s.conn.max_frame s.conn.stream ≡ (ok body, r)
      → (run_named p body
          (json_type_field p.js body)
          (record s { conn = record s.conn { stream = r } })).0
        ≡ ok tt
      → request_loop p (suc fuel) s
        ≡ request_loop p fuel
            (run_named p body
              (json_type_field p.js body)
              (record s { conn = record s.conn { stream = r } })).1
  unfolding request_loop
  request_served s body r fuel h done =
      ap (λ z. after_dispatch p z (λ v. request_loop p fuel v)) (request_read s body r h)
      ∙ dispatched
          (run_named p body (json_type_field p.js body)
            (record s { conn = record s.conn { stream = r } }))
          (λ v. request_loop p fuel v) done

module _ {S U J V E : Type 0} (p : Parts S U J V E) (d : Delivers p.rd)
    (never : IsInfallible J d) where
  -- A session whose peer has sent its last byte ends with no word.
  pub input_ended :
      (s : Session S U) (fuel : ℕ)
      → d.bytes s.conn.stream ≡ []
      → (r : U) × (request_loop p (suc fuel) s
          ≡ some (record s { conn = record s.conn { stream = r } }))
        × ((read_frame_with_limit p.js.serde p.rd s.conn.max_frame s.conn.stream).1 ≡ r)
  unfolding request_loop dispatch_one read_request read_value read_json read_frame_with_limit
      read_frame_bytes end_persistent is_closed
  input_ended s fuel e =
      let (r, q) = read_exact_short J d never header_len s.conn.stream (rw e (omega arith)) in
      (r, rw q refl, rw q refl)

module _ {S U J V E W : Type 0} (p : Parts S U J V E) (d : Delivers p.rd) (never : IsInfallible J d)
    {wr : Write W} (a : Appends wr)
    (back : (m : V) (bs : List ℕ) → p.js.serde.to_vec m ≡ ok bs → p.js.serde.from_slice bs ≡ ok m)
    (max_frame : ℕ) (small : max_frame ≤ u32_max) where
  open a use {written}

  -- A request of the peer, and the bytes that are left behind it.
  pub one_received :
      (s : Session S U) (body : V) (w w' : W) (rest : List ℕ)
      → s.conn.max_frame ≡ max_frame
      → write_frame_with_limit p.js.serde wr body max_frame w ≡ (ok tt, w')
      → written w ++ d.bytes s.conn.stream ≡ written w' ++ rest
      → (r : U) × (read_frame_with_limit p.js.serde p.rd s.conn.max_frame s.conn.stream
          ≡ (ok body, r))
        × (d.bytes r ≡ rest)
  one_received s body w w' rest m h e =
      let (r, x, y) =
        frame_round_trip p.js.serde a d body max_frame w w' s.conn.stream rest back never small h
          e in
      (r, rw m x, y)

module _ {S U J V E W : Type 0} (p : Parts S U J V E) (d : Delivers p.rd) (never : IsInfallible J d)
    (effect : V → S → S) (plain : IsEffect p d effect) {wr : Write W} (a : Appends wr)
    (back : (m : V) (bs : List ℕ) → p.js.serde.to_vec m ≡ ok bs → p.js.serde.from_slice bs ≡ ok m)
    (max_frame : ℕ) (small : max_frame ≤ u32_max) where
  open a use {written}

  -- The session behind one request of the peer.
  one_request :
      (s : Session S U) (body : V) (w w' : W) (rest : List ℕ) (fuel : ℕ)
      → s.conn.max_frame ≡ max_frame
      → write_frame_with_limit p.js.serde wr body max_frame w ≡ (ok tt, w')
      → written w ++ d.bytes s.conn.stream ≡ written w' ++ rest
      → (t : Session S U) × (request_loop p (suc fuel) s ≡ request_loop p fuel t)
        × (t.state ≡ effect body s.state)
        × (d.bytes t.conn.stream ≡ rest)
        × (t.conn.max_frame ≡ max_frame)
  one_request s body w w' rest fuel m h e =
      let (r, x, y) = one_received p d never a back max_frame small s body w w' rest m h e in
      let s' = record s { conn = record s.conn { stream = r } } in
      (
        (run_named p body (json_type_field p.js body) s').1,
        request_served p s body r fuel x (plain.served body s'),
        plain.state body s',
        plain.unread body s' ∙ y,
        plain.max_frame body s' ∙ m,
      )

  -- The session behind all the requests that a client has sent.
  requests :
      (bodies : List V) (s : Session S U) (w w' : W) (fuel : ℕ)
      → s.conn.max_frame ≡ max_frame
      → write_messages p.js.serde wr bodies max_frame w ≡ (ok tt, w')
      → written w ++ d.bytes s.conn.stream ≡ written w' ++ []
      → (t : Session S U) × (request_loop p (length bodies + fuel) s ≡ request_loop p fuel t)
        × (t.state ≡ replay effect bodies s.state)
        × (d.bytes t.conn.stream ≡ [])
  unfolding write_messages replay
  requests [] s w w' fuel m h e = (
    s,
    ap (λ n. request_loop p n s) (omega arith),
    refl,
    (append-injective (written w) (written w) refl (e ∙ ap (λ x. written x.1 ++ []) (sym h))).1,
  )
  requests (body ∷ bodies) s w w' fuel m h e =
      let (u, w₁, first, later) =
        then_run-eq-ok (write_frame_with_limit p.js.serde wr body max_frame w) _ h in
      let (others, f) = write_messages-appends p.js.serde a bodies max_frame w₁ w' later in
      let g : written w' ++ [] ≡ written w₁ ++ (others ++ []) =
        ap (λ (l : List ℕ). l ++ []) f ∙ append_assoc (written w₁) others [] in
      let (t, x, y, z, n) =
        one_request s body w w₁ (others ++ []) (length bodies + fuel) m first (e ∙ g) in
      let (t', x', y', z') =
        requests bodies t w₁ w' fuel n later (ap (λ (l : List ℕ). written w₁ ++ l) z ∙ sym g) in
      (
        t',
        ap (λ n. request_loop p n s) (omega arith) ∙ x ∙ x',
        y' ∙ ap (λ v. replay effect bodies v) y,
        z',
      )

  -- A client sends requests, with the cap of the server, which is at most `u32::MAX`, and closes. If
  -- the policy permits it, serde_json decodes what it has encoded, the stream never fails, and each
  -- request only has an effect on the state of the daemon, then a persistent session serves all of
  -- them, each once and in the order in which they were sent, whatever pieces the bytes arrive in; it
  -- ends with the input, and leaves the state that the effects lead to. A fuel above the number of
  -- the requests is enough.
  pub requests_served_in_order :
      (bodies : List V) (stream : U) (state : S) (policy : Auth) (fuel : ℕ) (w w' : W)
      → Permits p.creds stream policy
      → write_messages p.js.serde wr bodies max_frame w ≡ (ok tt, w')
      → written w ++ d.bytes stream ≡ written w'
      → length bodies < fuel
      → (t : Session S U) × (handle_conn p fuel policy persistent max_frame stream state ≡ some t)
        × (t.state ≡ replay effect bodies state)
  unfolding handle_conn
  requests_served_in_order bodies stream state policy fuel w w' permitted h e enough =
      let granted = (allows_iff p.creds stream policy).1 permitted in
      let more = fuel - suc (length bodies) in
      let begin : Session S U = record { state = state; conn = connect_stream stream max_frame } in
      let (s, x, y, z) =
        requests bodies begin w w' (suc more) refl h (e ∙ sym (append-nil (written w'))) in
      let (r, x', _) = input_ended p d never s more z in
      let rounds : fuel ≡ length bodies + suc more = omega arith in
      (
        record s { conn = record s.conn { stream = r } },
        rw granted (ap (λ n. request_loop p n begin) rounds ∙ x ∙ x'),
        y,
      )
