-- ===== src/Server/Startup/Running.antt =====
-- A server that ipc/server.rs has started in the background keeps to the policy that it was given.
use rust_commons.Prelude.{
  ℕ, ◌+◌, ◌≤◌, ◌<◌, ◌≡◌, refl, ap, ◌∙◌, sym, some, List, Result, ok, err, map_err, codes, length,
}
use rust_commons.StdIo.{Read, ErrorKind, ThreadBuilder}
use rust_commons.Auth.{Credentials}
use rust_commons.Command.{Json, Router, ErrorHandler}
use rust_commons.Bind.{Os, BindOptions, BindError, io_at, bind}
use rust_commons.Server.{AcceptPolicy}
use rust_commons.Server.Accept.{usize_mod}
use rust_commons.Server.Accept.Cap.{in_hand}
use rust_commons.Server.Threads.{Action}
use rust_commons.Server.Threads.Refines.{place_of, threads_within_cap}
use rust_commons.Server.Startup.{
  Server, Serving, policy_of, parts_of, from_listener, bind_server, after_spawn, serve_in_thread,
  serve_listener, serve_background,
}

module _ {S U J V L W P E : Type 0} (os : Os W P L E) (threads : ThreadBuilder W)
    (opts : BindOptions) (policy : AcceptPolicy) (router : Router S U J V)
    (hooks : ErrorHandler S U J V) (state : S) where
  spawned_policy :
      (server : Server S U J V L) (x : Result ErrorKind (Unit {0}) × W) (s : Serving S U J V L)
      → map_err (io_at (codes "ctl thread")) (after_spawn os threads server state x).0 ≡ ok s
      → policy_of s.server ≡ policy_of server
  spawned_policy server (ok u, w) s h =
      let same : record { server = server; state = state } ≡ s = cc in
      ap (λ z. policy_of z.server) (sym same)
  spawned_policy server (err e, w) s h = cc

  bound_policy :
      (x : Result BindError L × W) (w w' : W) (s : Serving S U J V L)
      → bind os opts w ≡ x
      → serve_background os threads opts policy router hooks state w ≡ (ok s, w')
      → policy_of s.server ≡ policy
  unfolding serve_background bind_server serve_in_thread from_listener
  bound_policy (err e, v) w w' s b h = cc (rw b at h)
  bound_policy (ok l, v) w w' s b h =
      spawned_policy (from_listener l opts.path policy router hooks) (threads.spawn (codes "ctl") v)
        s (ap (λ z. z.0) (rw b at h))

  -- If `serve_background` succeeds with a policy whose cap a `usize` holds, then on every schedule of
  -- the server that it has started, the counter is the number of its slots in use, by threads that
  -- serve a client, have left it, or have panicked, or by the accept loop, and it is never above the
  -- cap.
  pub started_within_cap :
      {F : Type 0} (js : Json J V) (rd : Read U) (creds : Credentials U F) (w w' : W)
      (s : Serving S U J V L) (max : ℕ) (actions : List (Action U))
      → serve_background os threads opts policy router hooks state w ≡ (ok s, w')
      → policy.max_clients ≡ some max
      → max < usize_mod
      → let t = serve_listener js rd creds s actions in
        (length t.threads + t.leaving + t.panicked + in_hand (place_of t.stage) ≡ t.clients)
        × (t.clients ≤ max)
  unfolding serve_listener
  started_within_cap js rd creds w w' s max actions h capped fits =
      threads_within_cap (parts_of js rd creds s.server) (policy_of s.server) max s.state actions
        (ap (λ z. z.max_clients) (bound_policy (bind os opts w) w w' s refl h) ∙ capped) fits
