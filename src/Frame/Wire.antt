-- ===== src/Frame/Wire.antt =====
-- What a connection of ipc/frame.rs carries: the frames of messages, one behind another.
use rust_commons.Prelude.{
  ℕ, ◌≤◌, ◌≡◌, refl, sym, ap, ◌∙◌, List, [], ◌∷◌, ◌++◌, append_assoc, append-nil, ok, err, length,
  Result-cases, inl, inr, then_run-eq-ok, arith,
}
use rust_commons.StdIo.{Read, Write, Delivers, Appends}
use rust_commons.Frame.{
  unexpected_eof, Serde, header_len, read_exact, read_frame_bytes, write_frame_with_limit,
  read_frame_with_limit, u32_max, frame_header,
}
use rust_commons.Frame.Header.{saturate-eq}
use rust_commons.Frame.Exact.{IsInfallible, read_exact_short}
use rust_commons.Frame.RoundTrip.{frame, write_frame_bytes-written, read_frame_bytes-header}
use rust_commons.Frame.Sequence.{write_messages, read_messages}

module _ {J T : Type 0} (serde : Serde J T) (max_frame : ℕ) where
  -- The bytes are the frames of the messages, in their order, each payload within the cap.
  abbrev pub OnWire : List T → List ℕ → Type 0
  OnWire [] bs = bs ≡ []
  OnWire (m ∷ msgs) bs =
      (payload : List ℕ) × (others : List ℕ) × (serde.to_vec m ≡ ok payload)
      × (length payload ≤ max_frame)
      × (bs ≡ frame payload ++ others)
      × OnWire msgs others

  pub OnWire-append :
      (msgs more : List T) (bs cs : List ℕ)
      → OnWire msgs bs
      → OnWire more cs
      → OnWire (msgs ++ more) (bs ++ cs)
  OnWire-append [] more bs cs e h = rw e h
  OnWire-append (m ∷ msgs) more bs cs (payload, others, encodes, fits, e, rest) h = (
    payload,
    others ++ cs,
    encodes,
    fits,
    ap (λ (l : List ℕ). l ++ cs) e ∙ append_assoc (frame payload) others cs,
    OnWire-append msgs more others cs rest h,
  )

  pub OnWire-split :
      (msgs more : List T) (bs : List ℕ)
      → OnWire (msgs ++ more) bs
      → (cs : List ℕ) × (ds : List ℕ) × (bs ≡ cs ++ ds) × OnWire msgs cs × OnWire more ds
  OnWire-split [] more bs h = ([], bs, refl, refl, h)
  OnWire-split (m ∷ msgs) more bs (payload, others, encodes, fits, e, rest) =
      let (cs, ds, p, x, y) = OnWire-split msgs more others rest in
      (
        frame payload ++ cs,
        ds,
        e ∙ (ap (λ (l : List ℕ). frame payload ++ l) p ∙ sym (append_assoc (frame payload) cs ds)),
        (payload, cs, encodes, fits, refl, x),
        y,
      )

module _ {J T W : Type 0} (serde : Serde J T) (wr : Write W) (max_frame : ℕ) where
  pub write_messages-split :
      (msgs more : List T) (w w' : W)
      → write_messages serde wr (msgs ++ more) max_frame w ≡ (ok tt, w')
      → (w₁ : W) × (write_messages serde wr msgs max_frame w ≡ (ok tt, w₁))
        × (write_messages serde wr more max_frame w₁ ≡ (ok tt, w'))
  unfolding write_messages
  write_messages-split [] more w w' h = (w, refl, h)
  write_messages-split (m ∷ msgs) more w w' h =
      let (u, w₁, p, q) = then_run-eq-ok (write_frame_with_limit serde wr m max_frame w) _ h in
      let (w₂, x, y) = write_messages-split msgs more w₁ w' q in (w₂, rw (p, x) refl, y)

module _ {J T R : Type 0} (serde : Serde J T) {rd : Read R} (d : Delivers rd)
    (back : (m : T) (bs : List ℕ) → serde.to_vec m ≡ ok bs → serde.from_slice bs ≡ ok m)
    (never : IsInfallible J d) (max_frame : ℕ) (small : max_frame ≤ u32_max) where
  pub message_arrives :
      (m : T) (payload rest : List ℕ) (r : R)
      → serde.to_vec m ≡ ok payload
      → length payload ≤ max_frame
      → d.bytes r ≡ frame payload ++ rest
      → (r' : R) × (read_frame_with_limit serde rd max_frame r ≡ (ok m, r')) × (d.bytes r' ≡ rest)
  unfolding read_frame_with_limit
  message_arrives m payload rest r encodes fits e =
      let (r', u, v) =
        read_frame_bytes-header J d never max_frame (length payload) payload rest r
          (sym (saturate-eq (length payload) (omega arith))) fits
          (e ∙ append_assoc (frame_header (length payload)) payload rest) in
      (r', rw (u, back m payload encodes) refl, v)

  -- A reader in front of the frames of messages gets the messages.
  pub messages_arrive :
      (msgs : List T) (bs rest : List ℕ) (r : R)
      → OnWire serde max_frame msgs bs
      → d.bytes r ≡ bs ++ rest
      → (r' : R) × (read_messages serde rd (length msgs) max_frame r ≡ (ok msgs, r'))
        × (d.bytes r' ≡ rest)
  unfolding read_messages
  messages_arrive [] bs rest r e h = (r, refl, h ∙ ap (λ (l : List ℕ). l ++ rest) e)
  messages_arrive (m ∷ msgs) bs rest r (payload, others, encodes, fits, e, more) h =
      let (r₁, x, y) =
        message_arrives m payload (others ++ rest) r encodes fits
          (h ∙ (ap (λ (l : List ℕ). l ++ rest) e ∙ append_assoc (frame payload) others rest)) in
      let (r₂, u, v) = messages_arrive msgs others rest r₁ more y in (r₂, rw (x, u) refl, v)

module _ (J : Type 0) {T R : Type 0} (serde : Serde J T) {rd : Read R} (d : Delivers rd)
    (never : IsInfallible J d) where
  -- A reader behind the last byte is told that the stream has ended in front of a header.
  pub no_more_messages :
      (max_frame : ℕ) (r : R)
      → d.bytes r ≡ []
      → (r' : R) × (read_frame_with_limit serde rd max_frame r
          ≡ (err (unexpected_eof 0 header_len), r'))
  unfolding read_frame_with_limit read_frame_bytes
  no_more_messages max_frame r h =
      let (r', e) = read_exact_short J d never header_len r (rw h (omega arith)) in
      let e' : read_exact {J = J} rd header_len r ≡ (err (unexpected_eof 0 header_len), r') =
        e ∙ ap (λ (l : List ℕ). (err (unexpected_eof (length l) header_len), r')) h in
      (r', rw e' refl)

-- What a client has written one message after another is on the wire.
module _ {J T W : Type 0} (serde : Serde J T) {wr : Write W} (a : Appends wr) (max_frame : ℕ) where
  message_on_wire :
      (m : T) (w w' : W)
      → write_frame_with_limit serde wr m max_frame w ≡ (ok tt, w')
      → (payload : List ℕ) × (serde.to_vec m ≡ ok payload)
        × (length payload ≤ max_frame)
        × (a.written w' ≡ a.written w ++ frame payload)
  unfolding write_frame_with_limit
  message_on_wire m w w' h = elim (Result-cases (serde.to_vec m)) [
    | inl (payload, p) ↦
        let (fits, e) = write_frame_bytes-written J a payload max_frame w w' (rw p at h) in
        (payload, p, fits, e)
    | inr (x, p) ↦ cc (rw p at h)
  ]

  pub write_messages-OnWire :
      (msgs : List T) (w w' : W)
      → write_messages serde wr msgs max_frame w ≡ (ok tt, w')
      → (bs : List ℕ) × OnWire serde max_frame msgs bs × (a.written w' ≡ a.written w ++ bs)
  unfolding write_messages
  write_messages-OnWire [] w w' h =
      ([], refl, ap (λ x. a.written x.1) (sym h) ∙ sym (append-nil (a.written w)))
  write_messages-OnWire (m ∷ msgs) w w' h =
      let (u, w₁, p, q) = then_run-eq-ok (write_frame_with_limit serde wr m max_frame w) _ h in
      let (payload, encodes, fits, e) = message_on_wire m w w₁ p in
      let (others, on_wire, f) = write_messages-OnWire msgs w₁ w' q in
      (
        frame payload ++ others,
        (payload, others, encodes, fits, refl, on_wire),
        f
            ∙ (ap (λ (l : List ℕ). l ++ others) e
                ∙ append_assoc (a.written w) (frame payload) others),
      )
