-- ===== src/Fleet/Sockets.antt =====
-- Daemons of different names have different sockets: the paths of `run_socket` in datadir.rs.
use rust_commons.Prelude.{
  ◌≡◌, refl, sym, ap, ◌∙◌, true, false, ◌∷◌, ◌++◌, Str, codes, str_eq, str_eq_iff, str_eq_ne,
  length, length-append, append-injective, arith,
}
use rust_commons.FilePath.{needs_slash, slash}
use rust_commons.FilePath.Laws.{IsName, push-push}
use rust_commons.DataDir.{DataDir, run_socket, push_all}
use rust_commons.DataDir.Paths.{run-IsName}

-- The file of the socket is one component.
abbrev pub IsDaemonName : Str → Type 0
IsDaemonName name = IsName (name ++ codes ".sock")

module _ (d : DataDir) (rooted : needs_slash d.root ≡ true) where
  run_socket-text :
      (name : Str)
      → IsDaemonName name
      → run_socket d name ≡ (d.root ++ codes "/run") ++ slash ∷ (name ++ codes ".sock")
  unfolding run_socket push_all
  run_socket-text name n = push-push d.root (codes "run") _ rooted run-IsName n

  pub run_socket-injective :
      (n m : Str) → IsDaemonName n → IsDaemonName m → run_socket d n ≡ run_socket d m → n ≡ m
  run_socket-injective n m hn hm e =
      let (_, f) =
        append-injective (d.root ++ codes "/run") (d.root ++ codes "/run") refl
          (sym (run_socket-text n hn) ∙ e ∙ run_socket-text m hm) in
      let g : n ++ codes ".sock" ≡ m ++ codes ".sock" = cc in
      let size = ap length g in
      (append-injective n m
        (omega (arith, length-append n (codes ".sock"), length-append m (codes ".sock"))) g).0

  pub other_socket :
      (n m : Str)
      → IsDaemonName n
      → IsDaemonName m
      → str_eq n m ≡ false
      → str_eq (run_socket d n) (run_socket d m) ≡ false
  other_socket n m hn hm differ =
      str_eq_ne (run_socket d n) (run_socket d m)
        (λ e. let same = (str_eq_iff n m).1 (run_socket-injective n m hn hm e) in absurd (cc))
