-- ===== src/Auth/Policy.antt =====
-- The policy that `Auth::allows` of ipc/auth.rs decides, as a relation.
use rust_commons.Prelude.{
  ℕ, zero, suc, ◌≡◌, ◌≢◌, refl, ap, ◌∙◌, ◌↔◌, inl, inr, Bool, true, false, Option, none, some, List,
  [], ◌∷◌, ◌==◌, ==_iff, Str, str_eq, str_eq_iff, arith, Bool-cases, Member, here, there,
}
use rust_commons.Auth.{
  Credentials, Auth, unchecked, peer_uid_auth, peer_user, contains_uid, any_user, peer_uid,
  username_for_uid, listed, allows_uid, allows_user, allows,
}

contains_uid→Member : (us : List ℕ) (uid : ℕ) → contains_uid us uid ≡ true → Member uid us
unfolding contains_uid
contains_uid→Member [] uid h = cc
contains_uid→Member (u ∷ us) uid h = elim (Bool-cases (u == uid)) [
  | inl same ↦ here ((==_iff u uid).0 same)
  | inr other ↦ there (contains_uid→Member us uid (rw other at h))
]

Member→contains_uid : (us : List ℕ) (uid : ℕ) → Member uid us → contains_uid us uid ≡ true
unfolding contains_uid
Member→contains_uid [] uid m = elim m [ ]
Member→contains_uid (u ∷ us) uid (here e) = rw ((==_iff u uid).1 e)
Member→contains_uid (u ∷ us) uid (there m) = ground (arith, Member→contains_uid us uid m)

any_user→Member : (us : List Str) (name : Str) → any_user us name ≡ true → Member name us
unfolding any_user
any_user→Member [] name h = cc
any_user→Member (u ∷ us) name h = elim (Bool-cases (str_eq u name)) [
  | inl same ↦ here ((str_eq_iff u name).0 same)
  | inr other ↦ there (any_user→Member us name (rw other at h))
]

Member→any_user : (us : List Str) (name : Str) → Member name us → any_user us name ≡ true
unfolding any_user
Member→any_user [] name m = elim m [ ]
Member→any_user (u ∷ us) name (here e) = rw ((str_eq_iff u name).1 e)
Member→any_user (u ∷ us) name (there m) = ground (arith, Member→any_user us name m)

module _ {U E : Type 0} (creds : Credentials U E) (stream : U) where
  -- The peer is known by its uid, and the uid or the login name of it stands in the list; the
  -- exceptions are a policy with no check, an empty list of users, which decides by itself, and
  -- the superuser.
  pub data Permits : Auth → Type 0 where
    anyone : Permits unchecked
    daemon :
        {daemon_uid : ℕ} {allow_uids : List ℕ}
        → peer_uid creds stream ≡ some daemon_uid
        → Permits (peer_uid_auth daemon_uid allow_uids)
    listed_uid :
        {daemon_uid : ℕ} {allow_uids : List ℕ} (uid : ℕ)
        → peer_uid creds stream ≡ some uid
        → Member uid allow_uids
        → Permits (peer_uid_auth daemon_uid allow_uids)
    empty_list :
        {root_always fail_closed_if_empty : Bool}
        → fail_closed_if_empty ≡ false
        → Permits (peer_user [] root_always fail_closed_if_empty)
    superuser :
        {allow_users : List Str} {root_always fail_closed_if_empty : Bool}
        → allow_users ≢ []
        → root_always ≡ true
        → peer_uid creds stream ≡ some 0
        → Permits (peer_user allow_users root_always fail_closed_if_empty)
    listed_user :
        {allow_users : List Str} {root_always fail_closed_if_empty : Bool} (uid : ℕ) (name : Str)
        → peer_uid creds stream ≡ some uid
        → username_for_uid creds uid ≡ some name
        → Member name allow_users
        → Permits (peer_user allow_users root_always fail_closed_if_empty)

  module _ (us : List Str) (root fail : Bool) (filled : us ≢ []) where
    listed-Permits :
        (uid : ℕ) (found : Option Str)
        → peer_uid creds stream ≡ some uid
        → username_for_uid creds uid ≡ found
        → listed creds us found ≡ true
        → Permits (peer_user us root fail)
    listed-Permits uid none e f h = cc
    listed-Permits uid (some name) e f h = listed_user uid name e f (any_user→Member us name h)

  allows_user-Permits :
      (us : List Str) (root fail : Bool) (o : Option ℕ)
      → us ≢ []
      → peer_uid creds stream ≡ o
      → allows_user creds us root o ≡ true
      → Permits (peer_user us root fail)
  allows_user-Permits us true fail (some zero) filled e h = superuser filled refl e
  allows_user-Permits us false fail (some zero) filled e h =
      listed-Permits us false fail filled 0 _ e refl h
  allows_user-Permits us root fail (some (suc n)) filled e h =
      listed-Permits us root fail filled (suc n) _ e refl h
  allows_user-Permits us root fail none filled e h = cc

  allows_uid-Permits :
      (d : ℕ) (us : List ℕ) (o : Option ℕ)
      → peer_uid creds stream ≡ o
      → allows_uid creds d us o ≡ true
      → Permits (peer_uid_auth d us)
  allows_uid-Permits d us none e h = cc
  allows_uid-Permits d us (some uid) e h = elim (Bool-cases (uid == d)) [
    | inl own ↦ daemon (e ∙ ap some ((==_iff uid d).0 own))
    | inr other ↦ listed_uid uid e (contains_uid→Member us uid (rw other at h))
  ]

  allows-Permits : (auth : Auth) → allows creds auth stream ≡ true → Permits auth
  unfolding allows
  allows-Permits unchecked h = anyone
  allows-Permits (peer_uid_auth d us) h = allows_uid-Permits d us (peer_uid creds stream) refl h
  allows-Permits (peer_user [] root fail) h = empty_list (ground arith)
  allows-Permits (peer_user (u ∷ us) root fail) h =
      allows_user-Permits (u ∷ us) root fail (peer_uid creds stream) (cc) refl h

  allows_user-listed :
      (us : List Str) (root : Bool) (uid : ℕ)
      → listed creds us (username_for_uid creds uid) ≡ true
      → allows_user creds us root (some uid) ≡ true
  allows_user-listed us true zero h = refl
  allows_user-listed us false zero h = h
  allows_user-listed us true (suc n) h = h
  allows_user-listed us false (suc n) h = h

  Permits-allows : (auth : Auth) → Permits auth → allows creds auth stream ≡ true
  unfolding allows
  Permits-allows unchecked anyone = refl
  Permits-allows (peer_uid_auth d us) (daemon e) = rw (e, (==_iff d d).1 refl)
  Permits-allows (peer_uid_auth d us) (listed_uid uid e m) =
      rw (e, Member→contains_uid us uid m) (ground arith)
  Permits-allows (peer_user [] root fail) (empty_list e) = rw e
  Permits-allows (peer_user [] root fail) (superuser filled _ _) = absurd (filled refl)
  Permits-allows (peer_user [] root fail) (listed_user _ _ _ _ m) = elim m [ ]
  Permits-allows (peer_user (u ∷ us) root fail) (superuser filled r e) = rw (e, r)
  Permits-allows (peer_user (u ∷ us) root fail) (listed_user uid name e f m) =
      rw e (allows_user-listed (u ∷ us) root uid (rw f (Member→any_user (u ∷ us) name m)))

  -- `allows` lets exactly those peers in that the policy permits.
  pub allows_iff : (auth : Auth) → (allows creds auth stream ≡ true) ↔ Permits auth
  allows_iff auth = (allows-Permits auth, Permits-allows auth)
