-- ===== src/Auth/Examples.antt =====
-- Tests of ipc/auth.rs and its theorem at concrete peers. A stream is its uid; uid 99 is unknown to
-- `SO_PEERCRED`, and the passwd database knows root and uid 7.
use rust_commons.Prelude.{
  ℕ, ◌≡◌, ◌↔◌, refl, true, false, none, some, [], ◌∷◌, ok, err, ◌==◌, if◌then◌else◌, codes, str_eq,
}
use rust_commons.Auth.{
  Credentials, Auth, peer_uid_auth, peer_user, any_user, peer_uid, username_for_uid, allows,
}
use rust_commons.Auth.Policy.{Permits, allows_iff}

abbrev peers : Credentials ℕ ℕ
peers = record {
  getsockopt = λ u. if u == 99 then err 1 else ok (record { uid = u; pid = 1 });
  from_uid = λ uid.
      ok (if uid == 0 then some (codes "root") else if uid == 7 then some (codes "bob") else none);
}

-- microwaf: root always, an empty list open
abbrev microwaf : Auth
microwaf = peer_user (codes "bob" ∷ []) true false

root_allowed : allows peers microwaf 0 ≡ true
unfolding allows peer_uid
root_allowed = refl

bob_allowed : allows peers microwaf 7 ≡ true
unfolding allows peer_uid username_for_uid any_user str_eq
bob_allowed = refl

others_denied : allows peers microwaf 8 ≡ false
unfolding allows peer_uid username_for_uid any_user
others_denied = refl

fails_closed : allows peers (peer_user [] true true) 0 ≡ false
unfolding allows
fails_closed = refl

unknown_peer_denied : allows peers (peer_uid_auth 99 (99 ∷ [])) 99 ≡ false
unfolding allows peer_uid
unknown_peer_denied = refl

allows_iff_example : (allows peers microwaf 7 ≡ true) ↔ Permits peers 7 microwaf
allows_iff_example = allows_iff peers 7 microwaf
