-- ===== src/Bind/Kernel/Free.antt =====
-- `bind` of ipc/bind.rs on the system of World, whatever it refuses, at a path that is free or holds a
-- leftover.
use rust_commons.Prelude.{
  ℕ, ◌≡◌, refl, ◌⊎◌, inl, inr, false, Option, none, some, ok, err, arith, str_eq, str_eq_refl, Str,
  Option-cases, with_err, Bool-cases,
}
use rust_commons.StdIo.{
  ErrorKind, not_found, connection_refused, connection_reset, unexpected_eof, other,
}
use rust_commons.FilePath.{FilePath, parent}
use rust_commons.Auth.{peer_pid}
use rust_commons.Bind.{
  BindOptions, io_at, probe, unlink_stale, claim, make_parent, set_owner, or_close, after_remove,
  set_up, bind, is_stale_socket_connect_error, apply_socket_perms, chown_socket,
}
use rust_commons.Bind.World.{
  socket, Call, connecting, removing, listening, reading_mode, setting_mode, setting_owner, World,
  put, kernel_with, close_node,
}
use rust_commons.Bind.Kernel.{live, IsIdle, FreeEnd, bound, failed, make_dir_cases, make_dir_made}

module _ (display : FilePath → Str) (refused : Call → Option ErrorKind) where
  module _ (opts : BindOptions) where
    probe_free :
        (w : World)
        → live (w.entries opts.path) ≡ none
        → (probe (kernel_with display refused) opts.path opts.process_name w ≡ (ok tt, w))
          ⊎ ((k : ErrorKind) × (probe (kernel_with display refused) opts.path opts.process_name w
                ≡ (err (io_at opts.path k), w)))
    unfolding probe is_stale_socket_connect_error peer_pid
    probe_free w h = elim (Option-cases (refused connecting)) [
      | inl granted ↦ inl (ground (arith, granted))
      | inr (k, denied) ↦ elim (Bool-cases (is_stale_socket_connect_error k)) [
        | inl stale ↦ inl (rw (denied, stale))
        | inr other_kind ↦ inr (k, rw (denied, other_kind))
      ]
    ]

    unchanged : (w : World) → live (w.entries opts.path) ≡ none → IsIdle opts w w
    unchanged w h = record { unserved = h; apart = λ p e. refl; same_pid = refl }

    remove_fails :
        (k : ErrorKind) (w : World)
        → (after_remove (kernel_with display refused) opts.path (err k, w) ≡ (ok tt, w))
          ⊎ ((k' : ErrorKind) × (after_remove (kernel_with display refused) opts.path (err k, w)
                ≡ (err (io_at opts.path k'), w)))
    remove_fails not_found w = inl refl
    remove_fails connection_refused w = inr (connection_refused, refl)
    remove_fails connection_reset w = inr (connection_reset, refl)
    remove_fails unexpected_eof w = inr (unexpected_eof, refl)
    remove_fails (other n) w = inr (other n, refl)

    unlink_free :
        (w : World)
        → live (w.entries opts.path) ≡ none
        → (w' : World) × (IsIdle opts w w'
            × ((unlink_stale (kernel_with display refused) opts.path w ≡ (ok tt, w'))
                ⊎ ((k : ErrorKind) × (unlink_stale (kernel_with display refused) opts.path w
                      ≡ (err (io_at opts.path k), w')))))
    unfolding unlink_stale
    unlink_free w h = elim (Option-cases (refused removing)) [
      | inr (k, denied) ↦ (w, (unchanged w h, rw denied (remove_fails k w)))
      | inl granted ↦ elim (Option-cases (w.entries opts.path)) [
        | inl gone ↦ (w, (unchanged w h, inl (rw (granted, gone))))
        | inr (n, there) ↦ (
          put opts.path none w,
          (
            record {
              unserved = rw (str_eq_refl opts.path) refl;
              apart = λ p e. rw e;
              same_pid = refl;
            },
            inl (rw (granted, there)),
          ),
        )
      ]
    ]

    -- Behind the call of `listen`.
    abbrev listened : World → World
    listened w = put opts.path (some (socket (some w.pid) 0o755 none)) w

    listen_free :
        (w : World)
        → (with_err (io_at opts.path) ((kernel_with display refused).listen opts.path) w
            ≡ (ok opts.path, listened w))
          ⊎ ((k : ErrorKind) × (with_err
                  (io_at opts.path)
                  ((kernel_with display refused).listen opts.path)
                  w
                ≡ (err (io_at opts.path k), w)))
    listen_free w = elim (Option-cases (refused listening)) [
      | inr (k, denied) ↦ inr (k, rw denied)
      | inl granted ↦ elim (Option-cases (w.entries opts.path)) [
        | inl gone ↦ inl (rw (granted, gone))
        | inr (n, there) ↦ inr (other 98, rw (granted, there))
      ]
    ]

    -- Of all files, only the one at the path may have changed, and the caller serves it.
    record IsOwn (w w' : World) (mode : ℕ) (owner : Option (ℕ × ℕ)) : Type 0 where
      pub standing : w'.entries opts.path ≡ some (socket (some w.pid) mode owner)
      pub apart : (p : FilePath) → str_eq opts.path p ≡ false → w'.entries p ≡ w.entries p
      pub same_pid : w'.pid ≡ w.pid

    listened-IsOwn : (w w₂ : World) → IsIdle opts w w₂ → IsOwn w (listened w₂) 0o755 none
    listened-IsOwn w w₂ idle = record {
      standing = rw (str_eq_refl opts.path, idle.same_pid) refl;
      apart = λ p e. rw e (idle.apart p e);
      same_pid = idle.same_pid;
    }

    close_own :
        (w w₃ : World) (mode : ℕ) (owner : Option (ℕ × ℕ)) (q : FilePath) (k : ErrorKind)
        → IsOwn w w₃ mode owner
        → FreeEnd opts w (or_close (kernel_with display refused) opts.path (err (io_at q k), w₃))
    close_own w w₃ mode owner q k own =
        let own_pid : w₃.pid ≡ w.pid = own.same_pid in
        let closed : close_node opts.path (w₃.entries opts.path) w₃
            ≡ put opts.path (some (socket none mode owner)) w₃ =
          rw (own.standing, own_pid) (ground arith) in
        failed q k refl (record {
          unserved = rw (closed, str_eq_refl opts.path) refl;
          apart = λ p e. rw (closed, e) (own.apart p e);
          same_pid = rw closed own_pid;
        })

    perms-IsOwn :
        (w w₃ : World) (mode : ℕ) (owner : Option (ℕ × ℕ))
        → IsOwn w w₃ mode owner
        → ((k : ErrorKind) × (apply_socket_perms
                (kernel_with display refused)
                opts.path
                opts.mode
                w₃
              ≡ (err k, w₃)))
          ⊎ ((w₄ : World) × ((apply_socket_perms
                    (kernel_with display refused)
                    opts.path
                    opts.mode
                    w₃
                  ≡ (ok tt, w₄))
                × IsOwn w w₄ opts.mode owner))
    unfolding apply_socket_perms
    perms-IsOwn w w₃ mode owner own = elim (Option-cases (refused reading_mode)) [
      | inr (k, denied) ↦ inl (k, rw denied)
      | inl granted ↦ elim (Option-cases (refused setting_mode)) [
        | inr (k, denied) ↦ inl (k, rw (granted, own.standing, denied))
        | inl granted' ↦ inr (
          put opts.path (some (socket (some w.pid) opts.mode owner)) w₃,
          (
            rw (granted, own.standing, granted', own.standing),
            record {
              standing = rw (str_eq_refl opts.path) refl;
              apart = λ p e. rw e (own.apart p e);
              same_pid = own.same_pid;
            },
          ),
        )
      ]
    ]

    own_end :
        (w w₃ : World) (o : Option (ℕ × ℕ))
        → opts.chown ≡ o
        → IsOwn w w₃ opts.mode none
        → FreeEnd opts w (
            or_close
              (kernel_with display refused)
              opts.path
              (set_owner (kernel_with display refused) opts.path o w₃))
    unfolding chown_socket
    own_end w w₃ none e own = bound refl (rw e own.standing) own.apart own.same_pid
    own_end w w₃ (some (uid, gid)) e own = elim (Option-cases (refused setting_owner)) [
      | inr (k, denied) ↦ rw denied (close_own w w₃ opts.mode none opts.path (other 0) own)
      | inl granted ↦
          rw (granted, own.standing)
            (bound refl (rw (str_eq_refl opts.path, e) refl) (λ p e'. rw e' (own.apart p e'))
              own.same_pid)
    ]

    finish_free :
        (w w₂ : World)
        → IsIdle opts w w₂
        → FreeEnd opts w (
            or_close
              (kernel_with display refused)
              opts.path
              (set_up (kernel_with display refused) opts (listened w₂)))
    unfolding set_up
    finish_free w w₂ idle =
        let own = listened-IsOwn w w₂ idle in
        elim (perms-IsOwn w (listened w₂) 0o755 none own) [
          | inl (k, broken) ↦ rw broken (close_own w (listened w₂) 0o755 none opts.path k own)
          | inr (w₄, (done, own')) ↦ rw done (own_end w w₄ opts.chown refl own')
        ]

    pub kernel_free :
        (w : World)
        → live (w.entries opts.path) ≡ none
        → FreeEnd opts w (bind (kernel_with display refused) opts w)
    unfolding bind claim make_parent
    kernel_free w h = elim (make_dir_cases display refused (parent opts.path) w) [
      | inr (q, k, broken) ↦ rw broken (failed q k refl (unchanged w h))
      | inl made ↦ elim (probe_free w h) [
        | inr (k, broken) ↦ rw (made, broken) (failed opts.path k refl (unchanged w h))
        | inl probed ↦
            let (w₂, (idle, removal)) = unlink_free w h in
            elim removal [
              | inr (k, broken) ↦ rw (made, probed, broken) (failed opts.path k refl idle)
              | inl removed ↦ elim (listen_free w₂) [
                | inr (k, broken) ↦
                    rw (made, probed, removed, broken) (failed opts.path k refl idle)
                | inl heard ↦ rw (made, probed, removed, heard) (finish_free w w₂ idle)
              ]
            ]
      ]
    ]

-- Where nothing is refused, a path that nobody serves is bound.
pub kernel_grants :
    (display : FilePath → Str) (opts : BindOptions) (w : World)
    → live (w.entries opts.path) ≡ none
    → (bind (kernel_with display (λ call. none)) opts w).0 ≡ ok opts.path
unfolding bind claim probe unlink_stale make_parent is_stale_socket_connect_error set_up
    apply_socket_perms chown_socket
kernel_grants display opts w h =
    ground
      (arith, make_dir_made display (λ call. none) (parent opts.path) w refl, str_eq_refl opts.path)
