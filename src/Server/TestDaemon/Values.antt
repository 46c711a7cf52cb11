-- ===== src/Server/TestDaemon/Values.antt =====
-- Objects that stand for the JSON of the tests, with an encoding of their own, and daemons over a pair
-- of lists of bytes.
use rust_commons.Prelude.{
  ℕ, zero, suc, ◌≡◌, refl, Option, none, some, List, [], ◌∷◌, Result, ok, err, Str, codes, str_eq,
  if◌then◌else◌,
}
use rust_commons.StdIo.{Read, Write}
use rust_commons.StdIo.Memory.{slice_read, slice_delivers, vec_write, vec_appends}
use rust_commons.StdIo.Duplex.{pair_read, pair_write, pair_duplex, Duplex, IsReliable}
use rust_commons.Frame.Display.{Texts}
use rust_commons.Frame.Exact.{IsInfallible}
use rust_commons.Auth.{Credentials}
use rust_commons.Command.{Json, Command}
use rust_commons.Server.{Parts}
use rust_commons.Server.TestDaemon.{Objects, echo, hangup_cmd, daemon}

-- `{"type": name, "n": n}`, `{"error": text}` and `{"ok": true}`, and what they hold.
pub data TestValue : Type 0 where
  request : (name : Str) → (n : ℕ) → TestValue
  error_of : Str → TestValue
  ok_true : TestValue
  text : Str → TestValue
  number : ℕ → TestValue
  truth : TestValue

abbrev pub encode : TestValue → Result ℕ (List ℕ)
encode (request name n) = ok (0 ∷ n ∷ name)
encode (error_of s) = ok (1 ∷ s)
encode ok_true = ok (2 ∷ [])
encode (text s) = err 0
encode (number n) = err 0
encode truth = err 0

abbrev pub decode : List ℕ → Result ℕ TestValue
decode (zero ∷ n ∷ name) = ok (request name n)
decode (suc zero ∷ s) = ok (error_of s)
decode (suc (suc zero) ∷ []) = ok ok_true
decode _ = err 1

pub decode-encode : (v : TestValue) (bs : List ℕ) → encode v ≡ ok bs → decode bs ≡ ok v
decode-encode (request name n) bs h = let e : bs ≡ 0 ∷ n ∷ name = cc in rw e refl
decode-encode (error_of s) bs h = let e : bs ≡ 1 ∷ s = cc in rw e refl
decode-encode ok_true bs h = let e : bs ≡ 2 ∷ [] = cc in rw e refl
decode-encode (text s) bs h = cc
decode-encode (number n) bs h = cc
decode-encode truth bs h = cc

abbrev pub field : TestValue → Str → Option TestValue
field (request name n) key =
    if str_eq (codes "type") key
    then some (text name)
    else if str_eq (codes "n") key
    then some (number n)
    else none
field (error_of s) key = if str_eq (codes "error") key then some (text s) else none
field ok_true key = if str_eq (codes "ok") key then some truth else none
field _ key = none

abbrev pub text_of : TestValue → Option Str
text_of (text s) = some s
text_of _ = none

abbrev pub test_json : Json ℕ TestValue
test_json = record {
  serde = record { to_vec = encode; from_slice = decode };
  get = field;
  as_str = text_of;
}

abbrev pub objects : Objects TestValue
objects = record { error_object = error_of; ok_object = ok_true }

abbrev pub texts : Texts ℕ
texts = record { show_json = λ e. codes "bad value"; show_io = λ e. codes "broken" }

abbrev pub no_creds : Credentials (List ℕ × List ℕ) ℕ
no_creds = record { getsockopt = λ u. err 1; from_uid = λ uid. ok none }

abbrev pub both_read : Read (List ℕ × List ℕ)
both_read = pair_read slice_read vec_write

abbrev pub both_write : Write (List ℕ × List ℕ)
both_write = pair_write slice_read vec_write

abbrev pub both : Duplex both_read both_write
both = pair_duplex slice_delivers vec_appends

abbrev pub reliable : IsReliable both_write
reliable = record { write_done = λ u bs. refl; flush_done = λ u. refl }

pub both_never : IsInfallible ℕ both.delivers
both_never u n e u' h = cc

pub slice_never : IsInfallible ℕ slice_delivers
slice_never r n e r' h = cc

abbrev pub with_command :
    Command ℕ (List ℕ × List ℕ) ℕ TestValue → Parts ℕ (List ℕ × List ℕ) ℕ TestValue ℕ
with_command cmd = daemon test_json both_write texts objects both_read no_creds cmd

abbrev pub echoing : Parts ℕ (List ℕ × List ℕ) ℕ TestValue ℕ
echoing = with_command (echo test_json both_write texts objects)

abbrev pub closing : Parts ℕ (List ℕ × List ℕ) ℕ TestValue ℕ
closing = with_command (hangup_cmd test_json both_write texts objects)

-- An echo, and a name that nobody has registered.
abbrev pub two_asked : List TestValue
two_asked = request (codes "echo") 1 ∷ request (codes "no") 2 ∷ []

abbrev pub two_sent : List ℕ
two_sent = 6 ∷ 0 ∷ 0 ∷ 0 ∷ 0 ∷ 1 ∷ 101 ∷ 99 ∷ 104 ∷ 111 ∷ 4 ∷ 0 ∷ 0 ∷ 0 ∷ 0 ∷ 2 ∷ 110 ∷ 111 ∷ []
