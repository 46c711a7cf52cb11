-- ===== src/Bind/Kernel.antt =====
-- `bind` of ipc/bind.rs on the system of World, whatever it refuses, at a socket that is served.
pub mod Free
use rust_commons.Prelude.{
  ℕ, ◌≡◌, refl, ap, ◌⊎◌, inl, inr, false, Option, none, some, [], ◌∷◌, Result, ok, err, arith,
  str_eq, str_eq_refl, Str, Option-cases, with_err, Bool-cases,
}
use rust_commons.StdIo.{
  ErrorKind, not_found, connection_refused, connection_reset, unexpected_eof, other,
}
use rust_commons.FilePath.{FilePath, parent}
use rust_commons.Auth.{peer_pid}
use rust_commons.Bind.{
  BindOptions, BindError, already_running, io_at, location_of, probe, unlink_stale, claim,
  make_parent, make_dir, set_owner, or_close, after_remove, set_up, bind,
  is_stale_socket_connect_error, apply_socket_perms, chown_socket,
}
use rust_commons.Bind.World.{
  Node, socket, Call, connecting, removing, making_dir, listening, reading_mode, setting_mode,
  setting_owner, World, put, kernel_with, kernel, close_node,
}

-- The process that listens at an entry.
abbrev pub live : Option Node → Option ℕ
live (some (socket listener mode owner)) = listener
live _ = none

-- What `claim` tells of the process that serves the path.
abbrev pub running : (display : FilePath → Str) → BindOptions → (pid : ℕ) → BindError
running display opts pid =
    already_running opts.process_name (location_of (display opts.path) pid) opts.path pid

-- The answer to a process that is kept from the socket of another: that one is running, or a call
-- failed.
pub data IsTurnedAway (told_error : BindError) (r : Result BindError FilePath) : Type 0 where
  told : r ≡ err told_error → IsTurnedAway told_error r
  blocked : (q : FilePath) (k : ErrorKind) → r ≡ err (io_at q k) → IsTurnedAway told_error r

module _ (opts : BindOptions) where
  -- Of all files, only the one at the path may have changed, and nobody serves it.
  pub record IsIdle (w w' : World) : Type 0 where
    pub unserved : live (w'.entries opts.path) ≡ none
    pub apart : (p : FilePath) → str_eq opts.path p ≡ false → w'.entries p ≡ w.entries p
    pub same_pid : w'.pid ≡ w.pid

  -- The two ends of a `bind` at a path that nobody serves: its socket is served by the caller, with
  -- the mode and the owner that were asked for; or a call has failed, and nobody serves the path.
  pub data FreeEnd (w : World) (x : Result BindError FilePath × World) : Type 0 where
    bound :
        x.0 ≡ ok opts.path
        → x.1.entries opts.path ≡ some (socket (some w.pid) opts.mode opts.chown)
        → ((p : FilePath) → str_eq opts.path p ≡ false → x.1.entries p ≡ w.entries p)
        → x.1.pid ≡ w.pid
        → FreeEnd w x
    failed : (q : FilePath) (k : ErrorKind) → x.0 ≡ err (io_at q k) → IsIdle w x.1 → FreeEnd w x

module _ (display : FilePath → Str) (refused : Call → Option ErrorKind) where
  pub make_dir_cases :
      (o : Option FilePath) (w : World)
      → (make_dir (kernel_with display refused) o w ≡ (ok tt, w))
        ⊎ ((q : FilePath) × (k : ErrorKind) × (make_dir (kernel_with display refused) o w
              ≡ (err (io_at q k), w)))
  make_dir_cases none w = inl refl
  make_dir_cases (some []) w = inl refl
  make_dir_cases (some (c ∷ s)) w = elim (Option-cases (refused making_dir)) [
    | inl granted ↦ inl (rw granted)
    | inr (k, denied) ↦ inr (c ∷ s, k, rw denied)
  ]

  -- No file is changed.
  pub make_dir_keeps :
      (o : Option FilePath) (w : World) → (make_dir (kernel_with display refused) o w).1 ≡ w
  make_dir_keeps o w = elim (make_dir_cases o w) [
    | inl made ↦ ap (λ z. z.1) made
    | inr (q, k, broken) ↦ ap (λ z. z.1) broken
  ]

  pub make_dir_made :
      (o : Option FilePath) (w : World)
      → refused making_dir ≡ none
      → make_dir (kernel_with display refused) o w ≡ (ok tt, w)
  make_dir_made none w h = refl
  make_dir_made (some []) w h = refl
  make_dir_made (some (c ∷ s)) w h = rw h

  module _ (opts : BindOptions) where
    -- A socket that is served by a process is left alone, the whole system with it, also where the
    -- caller may not connect to it.
    pub kernel_live :
        (pid : ℕ) (w : World)
        → live (w.entries opts.path) ≡ some pid
        → ((k : ErrorKind) → refused connecting ≡ some k → is_stale_socket_connect_error k ≡ false)
        → IsTurnedAway (running display opts pid) (bind (kernel_with display refused) opts w).0
          × ((bind (kernel_with display refused) opts w).1 ≡ w)
    unfolding bind claim probe make_parent peer_pid
    kernel_live pid w h plain = elim (make_dir_cases (parent opts.path) w) [
      | inr (q, k, broken) ↦ (blocked q k (rw broken), rw broken)
      | inl made ↦ elim (Option-cases (refused connecting)) [
        | inl granted ↦ (told (ground (arith, made)), ground (arith, made))
        | inr (k, denied) ↦ (
          blocked opts.path k (rw (made, denied, plain k denied)),
          rw (made, denied, plain k denied),
        )
      ]
    ]

-- Where the call of `connect` is made, the other process is named.
pub kernel_told :
    (display : FilePath → Str) (refused : Call → Option ErrorKind) (opts : BindOptions) (pid : ℕ)
    (w : World)
    → live (w.entries opts.path) ≡ some pid
    → refused making_dir ≡ none
    → refused connecting ≡ none
    → (bind (kernel_with display refused) opts w).0 ≡ err (running display opts pid)
unfolding bind claim probe make_parent peer_pid
kernel_told display refused opts pid w h made granted =
    let dir_made = make_dir_made display refused (parent opts.path) w made in
    ground (arith, dir_made)

-- A process that closes its listener leaves a socket that nobody serves.
pub kernel_closed :
    (path : FilePath) (w : World) (mode : ℕ) (owner : Option (ℕ × ℕ))
    → w.entries path ≡ some (socket (some w.pid) mode owner)
    → live ((kernel.close path w).entries path) ≡ none
kernel_closed path w mode owner h = ground (arith, str_eq_refl path)
