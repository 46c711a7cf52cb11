-- ===== src/Auth.antt =====
-- ipc/auth.rs: who may use the control socket. `SO_PEERCRED` and the passwd database are read
-- through the nix crate, which is not part of the repository: `Credentials` is what the code calls.
mod Examples
pub mod Policy
use rust_commons.Prelude.{
  ℕ, zero, suc, Bool, true, false, not, ◌||◌, ◌&&◌, Option, none, some, List, [], ◌∷◌, Result, ok,
  err, ◌==◌, Str, str_eq,
}

-- The fields of `ucred` that are read. A pid is the `i32` as the `u32` that it is cast to.
pub record Ucred : Type 0 where
  pub uid : ℕ
  pub pid : ℕ

-- `getsockopt(stream, PeerCredentials)` and `User::from_uid(uid)`, with the name of the user
pub record Credentials (U E : Type 0) : Type 0 where
  pub getsockopt : U → Result E Ucred
  pub from_uid : ℕ → Result E (Option Str)

pub data Auth : Type 0 where
  unchecked : Auth  -- `Auth::None`
  peer_uid_auth : (daemon_uid : ℕ) (allow_uids : List ℕ) → Auth
  peer_user : (allow_users : List Str) (root_always fail_closed_if_empty : Bool) → Auth

-- `Vec::contains` and `iter().any`
unfoldable pub contains_uid : List ℕ → ℕ → Bool
contains_uid [] uid = false
contains_uid (u ∷ us) uid = u == uid || contains_uid us uid

unfoldable pub any_user : List Str → Str → Bool
any_user [] name = false
any_user (u ∷ us) name = str_eq u name || any_user us name

module _ {U E : Type 0} (creds : Credentials U E) where
  abbrev pub uid_of : Result E Ucred → Option ℕ
  uid_of (ok c) = some c.uid
  uid_of (err e) = none

  unfoldable pub peer_uid : U → Option ℕ
  peer_uid stream = uid_of (creds.getsockopt stream)

  abbrev pub pid_of : Result E Ucred → ℕ
  pid_of (ok c) = c.pid
  pid_of (err e) = 0

  unfoldable pub peer_pid : U → ℕ
  peer_pid stream = pid_of (creds.getsockopt stream)

  abbrev pub name_of : Result E (Option Str) → Option Str
  name_of (ok found) = found
  name_of (err e) = none

  unfoldable pub username_for_uid : ℕ → Option Str
  username_for_uid uid = name_of (creds.from_uid uid)

  abbrev pub listed : List Str → Option Str → Bool
  listed allow_users (some name) = any_user allow_users name
  listed allow_users none = false

  abbrev pub allows_uid : (daemon_uid : ℕ) (allow_uids : List ℕ) → Option ℕ → Bool
  allows_uid daemon_uid allow_uids (some uid) = uid == daemon_uid || contains_uid allow_uids uid
  allows_uid daemon_uid allow_uids none = false

  -- The arm `Some(0) if *root_always` stands above the lookup of the name.
  abbrev pub allows_user : (allow_users : List Str) (root_always : Bool) → Option ℕ → Bool
  allows_user allow_users true (some zero) = true
  allows_user allow_users false (some zero) = listed allow_users (username_for_uid 0)
  allows_user allow_users root_always (some (suc n)) = listed allow_users (username_for_uid (suc n))
  allows_user allow_users root_always none = false

  -- `Auth::allows`
  unfoldable pub allows : Auth → U → Bool
  allows unchecked stream = true
  allows (peer_uid_auth daemon_uid allow_uids) stream =
      allows_uid daemon_uid allow_uids (peer_uid stream)
  allows (peer_user [] root_always fail_closed_if_empty) stream = not fail_closed_if_empty
  allows (peer_user (u ∷ us) root_always fail_closed_if_empty) stream =
      allows_user (u ∷ us) root_always (peer_uid stream)
