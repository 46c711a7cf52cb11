-- ===== src/Server/Threads/Refusal.antt =====
-- One thread of ipc/server.rs whose peer is not permitted: its only action is to reject it.
use rust_commons.Prelude.{
  ℕ, zero, suc, ◌≡◌, refl, subst, none, some, List, [], ◌∷◌, arith, Bool-cases, Option-cases, inl,
  inr,
}
use rust_commons.Auth.{allows}
use rust_commons.Auth.Policy.{Permits, allows_iff}
use rust_commons.Command.{RejectReason, auth, Session}
use rust_commons.Server.{AcceptPolicy, Parts}
use rust_commons.Server.Threads.{starting, Thread, advance, advance_at, drop_at, session_of}

module _ {S U J V E : Type 0} (p : Parts S U J V E) (policy : AcceptPolicy) where
  open p use {creds, hooks}

  abbrev pub Stranger : U → Type 0
  Stranger stream = ¬ Permits creds stream policy.auth

  abbrev pub Unserved : List (Thread U) → Type 0
  Unserved [] = Unit {0}
  Unserved (t ∷ threads) = (t.phase ≡ starting) × Stranger t.peer × Unserved threads

  -- The daemon's answer to a rejected peer leaves its state alone.
  abbrev pub RejectsQuietly : Type 0
  RejectsQuietly =
      (reason : RejectReason) (s : Session S U) → (hooks.reject reason s).state ≡ s.state

  module _ (quiet : RejectsQuietly) where
    advance-refused :
        (t : Thread U) (state : S)
        → t.phase ≡ starting
        → Stranger t.peer
        → advance p policy t state ≡ (none, state)
    unfolding advance
    advance-refused t state start out = elim (Bool-cases (allows creds policy.auth t.peer)) [
      | inl granted ↦ absurd (out ((allows_iff creds t.peer policy.auth).0 granted))
      | inr refused ↦ ground (arith, quiet auth (session_of p policy t.conn state))
    ]

    pub advance_at-Unserved :
        (i : ℕ) (threads : List (Thread U)) (state : S)
        → Unserved threads
        → Unserved (advance_at p policy i threads state).threads
          × ((advance_at p policy i threads state).state ≡ state)
    unfolding advance_at
    advance_at-Unserved i [] state h = (tt, refl)
    advance_at-Unserved zero (t ∷ threads) state (start, out, h) =
        rw (advance-refused t state start out) (h, refl)
    advance_at-Unserved (suc i) (t ∷ threads) state (start, out, h) =
        let (k, e) = advance_at-Unserved i threads state h in ((start, out, k), e)

    pub drop_at-Unserved :
        (i : ℕ) (threads others : List (Thread U))
        → Unserved threads
        → drop_at p policy i threads ≡ some others
        → Unserved others
    unfolding drop_at
    drop_at-Unserved i [] others h e = cc
    drop_at-Unserved zero (t ∷ threads) others (start, out, h) e =
        subst Unserved (let q : threads ≡ others = cc e in q) h
    drop_at-Unserved (suc i) (t ∷ threads) others (start, out, h) e =
        elim (Option-cases (drop_at p policy i threads)) [
          | inl gone ↦ cc (rw gone at e)
          | inr (rest, kept) ↦
              subst Unserved (let q : t ∷ rest ≡ others = cc (rw kept at e) in q)
                (start, out, drop_at-Unserved i threads rest h kept)
        ]
