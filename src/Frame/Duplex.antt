-- ===== src/Frame/Duplex.antt =====
-- ipc/frame.rs on a stream that is read and written: reading leaves what was written, and writing
-- leaves what is to be read.
use mathlib.Core.WellFounded.{Acc}
use rust_commons.Prelude.{
  ℕ, suc, ◌-◌, ◌≤◌, ◌<◌, ◌≡◌, refl, sym, ap, ◌∙◌, List, [], ◌∷◌, ◌++◌, Result, ok, err, length,
  arith, dec_lt, lt_wf, dif_pos, dif_neg, le_prop, ltb, ge→ltb, then_run, inl, inr, Bool-cases,
  if◌then◌else◌, raise,
}
use rust_commons.StdIo.{ErrorKind, Read, Write}
use rust_commons.StdIo.Duplex.{Duplex, IsReliable}
use rust_commons.Frame.{
  FrameError, Serde, fills-lt, after_read, read_loop, read_exact, read_frame_bytes, header_len,
  from_le_bytes, read_frame_with_limit, write_frame_bytes, write_frame_with_limit, frame_header,
}
use rust_commons.Frame.RoundTrip.{frame, write_frame_bytes-written}

module _ (J : Type 0) {U : Type 0} {rd : Read U} {wr : Write U} (both : Duplex rd wr) where
  open both use {delivers, appends, write_keeps, flush_keeps, read_keeps}

  after_read-keeps :
      (got : List ℕ) (left : ℕ) (u : U) (came : Result ErrorKind (List ℕ) × U)
      (again : ℕ → List ℕ → U → Result (FrameError J) (List ℕ) × U)
      → appends.written came.1 ≡ appends.written u
      → ((b : ℕ) (bs : List ℕ) (v : U) → appends.written (again b bs v).1 ≡ appends.written v)
      → appends.written (after_read rd got left came again).1 ≡ appends.written u
  after_read-keeps got left u (err e, v) again h next = h
  after_read-keeps got left u (ok [], v) again h next = h
  after_read-keeps got left u (ok (b ∷ bs), v) again h next = next b bs v ∙ h

  read_loop-keeps :
      (got : List ℕ) (left : ℕ) (w : Acc ◌<◌ left) (u : U)
      → appends.written (read_loop {J = J} rd got left w u).1 ≡ appends.written u
  unfolding read_loop
  read_loop-keeps got left (Acc.intro _ smaller) u = elim (dec_lt 0 left) [
    | yes pos ↦ rw (dif_pos _ le_prop pos) (
        after_read-keeps got left u (rd.read u left) _ (read_keeps u left) (λ b bs v.
          read_loop-keeps (got ++ b ∷ bs) (left - suc (length bs))
            (smaller (left - suc (length bs)) (fills-lt left (length bs) pos)) v))
    | no none_left ↦ rw (dif_neg _ none_left) refl
  ]

  read_exact-keeps :
      (n : ℕ) (u : U) → appends.written (read_exact {J = J} rd n u).1 ≡ appends.written u
  unfolding read_exact
  read_exact-keeps n u = read_loop-keeps [] n (lt_wf.apply n) u

  payload-keeps :
      (max_frame : ℕ) (u : U) (x : Result (FrameError J) (List ℕ) × U)
      → appends.written x.1 ≡ appends.written u
      → appends.written
          (then_run x (λ header.
            let len = from_le_bytes header in
            if ltb max_frame len
            then raise (FrameError.too_large len max_frame)
            else read_exact rd len)).1
        ≡ appends.written u
  payload-keeps max_frame u (err e, v) h = h
  payload-keeps max_frame u (ok header, v) h =
      elim (Bool-cases (ltb max_frame (from_le_bytes header))) [
        | inl big ↦ rw big h
        | inr fits ↦ rw fits (read_exact-keeps (from_le_bytes header) v ∙ h)
      ]

  read_frame_bytes-keeps :
      (max_frame : ℕ) (u : U)
      → appends.written (read_frame_bytes {J = J} rd max_frame u).1 ≡ appends.written u
  unfolding read_frame_bytes
  read_frame_bytes-keeps max_frame u =
      payload-keeps max_frame u (read_exact rd header_len u) (read_exact-keeps header_len u)

  write_frame_bytes-keeps :
      (payload : List ℕ) (max_frame : ℕ) (u : U)
      → delivers.bytes (write_frame_bytes {J = J} wr payload max_frame u).1 ≡ delivers.bytes u
  unfolding write_frame_bytes
  write_frame_bytes-keeps payload max_frame u =
      let u₁ = (wr.write_all u (frame_header (length payload))).1 in
      let u₂ = (wr.write_all u₁ payload).1 in
      ground (
        arith,
        write_keeps u (frame_header (length payload)),
        write_keeps u₁ payload,
        flush_keeps u₂,
      )

  write_frame_bytes_reliable :
      IsReliable wr
      → (payload : List ℕ) (max_frame : ℕ) (u : U) → length payload ≤ max_frame
      → (u' : U) × (write_frame_bytes {J = J} wr payload max_frame u ≡ (ok tt, u'))
  unfolding write_frame_bytes
  write_frame_bytes_reliable sure payload max_frame u fits =
      let u₁ = (wr.write_all u (frame_header (length payload))).1 in
      let u₂ = (wr.write_all u₁ payload).1 in
      (
        (wr.flush u₂).1,
        rw
            (
              ge→ltb max_frame (length payload) fits,
              sure.write_done u (frame_header (length payload)),
              sure.write_done u₁ payload,
              sure.flush_done u₂,
            )
            refl,
      )

module _ {J T U : Type 0} (serde : Serde J T) {rd : Read U} {wr : Write U}
    (both : Duplex rd wr) where
  open both use {delivers, appends}

  pub read_frame_with_limit-keeps :
      (max_frame : ℕ) (u : U)
      → appends.written (read_frame_with_limit serde rd max_frame u).1 ≡ appends.written u
  unfolding read_frame_with_limit
  read_frame_with_limit-keeps max_frame u =
      let same = read_frame_bytes-keeps J both max_frame u in ground arith

  -- A message whose payload is within the cap goes out as its frame, if no call of the writer fails.
  pub message_goes_out :
      IsReliable wr
      → (msg : T) (payload : List ℕ) (max_frame : ℕ) (u : U) → serde.to_vec msg ≡ ok payload
      → length payload ≤ max_frame
      → (u' : U) × (write_frame_with_limit serde wr msg max_frame u ≡ (ok tt, u'))
        × (appends.written u' ≡ appends.written u ++ frame payload)
        × (delivers.bytes u' ≡ delivers.bytes u)
  unfolding write_frame_with_limit
  message_goes_out sure msg payload max_frame u encodes fits =
      let (u', e) = write_frame_bytes_reliable J both sure payload max_frame u fits in
      (
        u',
        rw (encodes, e) refl,
        (write_frame_bytes-written J appends payload max_frame u u' e).1,
        sym (ap (λ x. delivers.bytes x.1) e) ∙ write_frame_bytes-keeps J both payload max_frame u,
      )
