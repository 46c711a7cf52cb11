-- ===== src/Frame/Sequence.antt =====
-- Messages sent one after another over ipc/frame.rs, as a client does that does not wait for the
-- answers, and a persistent session that reads them.
use rust_commons.Prelude.{
  ℕ, zero, suc, ◌≤◌, ◌≡◌, refl, sym, ap, ◌∙◌, List, [], ◌∷◌, ◌++◌, append_assoc, ok, Result-cases,
  inl, inr, length, Io, pure, ◌>>=◌, ◌>>◌, then_run-eq-ok, append-injective,
}
use rust_commons.StdIo.{Read, Write, Delivers, Appends}
use rust_commons.Frame.{FrameError, Serde, write_frame_with_limit, read_frame_with_limit, u32_max}
use rust_commons.Frame.Exact.{IsInfallible}
use rust_commons.Frame.RoundTrip.{frame, frame_round_trip, write_frame_bytes-written}

append_nil : {A : Type 0} (l : List A) → l ++ [] ≡ l
append_nil [] = refl
append_nil (a ∷ l) = ap (λ x. a ∷ x) (append_nil l)

module _ {J T W : Type 0} (serde : Serde J T) (wr : Write W) where
  unfoldable pub write_messages : List T → (max_frame : ℕ) → Io W (FrameError J) (Unit {0})
  write_messages [] max_frame = pure tt
  write_messages (m ∷ msgs) max_frame =
      write_frame_with_limit serde wr m max_frame >> write_messages msgs max_frame

module _ {J T R : Type 0} (serde : Serde J T) (rd : Read R) where
  unfoldable pub read_messages : (n max_frame : ℕ) → Io R (FrameError J) (List T)
  read_messages zero max_frame = pure []
  read_messages (suc n) max_frame = do
    m ← read_frame_with_limit serde rd max_frame
    msgs ← read_messages n max_frame
    pure (m ∷ msgs)

module _ {J T W : Type 0} (serde : Serde J T) {wr : Write W} (a : Appends wr) where
  open a use {written}

  message-appends :
      (m : T) (max_frame : ℕ) (w w' : W)
      → write_frame_with_limit serde wr m max_frame w ≡ (ok tt, w')
      → (sent : List ℕ) × (written w' ≡ written w ++ sent)
  unfolding write_frame_with_limit
  message-appends m max_frame w w' h = elim (Result-cases (serde.to_vec m)) [
    | inl (payload, p) ↦
        (frame payload, (write_frame_bytes-written J a payload max_frame w w' (rw p at h)).1)
    | inr (x, p) ↦ cc (rw p at h)
  ]

  pub write_messages-appends :
      (msgs : List T) (max_frame : ℕ) (w w' : W)
      → write_messages serde wr msgs max_frame w ≡ (ok tt, w')
      → (sent : List ℕ) × (written w' ≡ written w ++ sent)
  unfolding write_messages
  write_messages-appends [] max_frame w w' h =
      ([], ap (λ x. written x.1) (sym h) ∙ sym (append_nil (written w)))
  write_messages-appends (m ∷ msgs) max_frame w w' h =
      let (u, w₁, p, q) = then_run-eq-ok (write_frame_with_limit serde wr m max_frame w) _ h in
      let (first, e) = message-appends m max_frame w w₁ p in
      let (others, f) = write_messages-appends msgs max_frame w₁ w' q in
      (first ++ others, f ∙ (ap (λ l. l ++ others) e ∙ append_assoc (written w) first others))

-- Messages written one after another are read back one after another, each by its own reading,
-- whatever pieces the bytes arrive in: the reader gets them in their order and stands where the
-- writer ended; under the conditions of one message, that serde_json decodes what it has encoded,
-- that the reader never fails, and that the cap is at most `u32::MAX`.
pub messages_round_trip :
    {J T W R : Type 0} (serde : Serde J T) {wr : Write W} (a : Appends wr) {rd : Read R}
    (d : Delivers rd) (msgs : List T) (max_frame : ℕ) (w w' : W) (r : R) (rest : List ℕ)
    → ((m : T) (bs : List ℕ) → serde.to_vec m ≡ ok bs → serde.from_slice bs ≡ ok m)
    → IsInfallible J d
    → max_frame ≤ u32_max
    → write_messages serde wr msgs max_frame w ≡ (ok tt, w')
    → a.written w ++ d.bytes r ≡ a.written w' ++ rest
    → (r' : R) × (read_messages serde rd (length msgs) max_frame r ≡ (ok msgs, r'))
      × (d.bytes r' ≡ rest)
unfolding write_messages read_messages
messages_round_trip serde a d [] max_frame w w' r rest back never small h e = (
  r,
  refl,
  (append-injective (a.written w) (a.written w) refl
      (e ∙ ap (λ x. a.written x.1 ++ rest) (sym h))).1,
)
messages_round_trip serde {wr} a {rd} d (m ∷ msgs) max_frame w w' r rest back never small h e =
    let (u, w₁, p, q) = then_run-eq-ok (write_frame_with_limit serde wr m max_frame w) _ h in
    let (others, f) = write_messages-appends serde a msgs max_frame w₁ w' q in
    let g : a.written w' ++ rest ≡ a.written w₁ ++ (others ++ rest) =
      ap (λ (l : List ℕ). l ++ rest) f ∙ append_assoc (a.written w₁) others rest in
    let (r₁, x, y) =
      frame_round_trip serde a d m max_frame w w₁ r (others ++ rest) back never small p (e ∙ g) in
    let (r₂, s, t) =
      messages_round_trip serde a d msgs max_frame w₁ w' r₁ rest back never small q
        (ap (λ (l : List ℕ). a.written w₁ ++ l) y ∙ sym g) in
    (r₂, rw (x, s), t)
