-- ===== src/Daemon/Sockets.antt =====
-- `daemon_open_sockets` and `daemon_close_sockets` of src/daemon.c.
use hddtemp.Prelude.{
  ℕ, Bool, true, false, not, Option, none, some, List, [], ◌∷◌, ◌++◌, drop, if◌then◌else◌, ◌≡◌,
  refl, ap, sym, ◌∙◌, append_assoc, append-nil,
}

-- What the kernel answers for one of the addresses that `getaddrinfo` finds.
pub record Address : Type 0 where
  pub socket : Option ℕ
  pub binds : Bool
  pub listens : Bool

-- How a call of `daemon_open_sockets` ends.
pub data Opened : Type 0 where
  -- `sks_serv`, up to `sks_serv_num`
  opened : List ℕ → Opened
  -- exit(1), with the sockets that were closed before
  cannot_listen : List ℕ → Opened
  -- exit(1)
  no_socket : Opened

unfoldable pub reversed : List ℕ → List ℕ → List ℕ
reversed [] acc = acc
reversed (x ∷ l) acc = reversed l (x ∷ acc)

-- What the loop does with an address; `skipped` and `taken` are what the rest of it gives without the
-- socket and with it. When a socket does not listen, those from `sks_serv_num - 1` down to 1 are closed.
unfoldable pub open_one : Address → List ℕ → Opened → (ℕ → Opened) → Opened
unfolding reversed
open_one a sks skipped taken = elim a.socket [
  | none ↦ skipped
  | some s ↦
      if not a.binds
      then skipped
      else (if not a.listens then cannot_listen (reversed (drop 1 sks) []) else taken s)
]

-- The loop over the addresses, `sks` the sockets so far.
unfoldable pub open_loop : List Address → List ℕ → Opened
unfolding open_one
open_loop [] [] = no_socket
open_loop [] (s ∷ sks) = opened (s ∷ sks)
open_loop (a ∷ addresses) sks =
    open_one a sks (open_loop addresses sks) (λ s. open_loop addresses (sks ++ s ∷ []))

unfoldable pub daemon_open_sockets : List Address → Opened
unfolding open_loop
daemon_open_sockets addresses = open_loop addresses []

-- The sockets that it closes.
abbrev pub daemon_close_sockets : List ℕ → List ℕ
daemon_close_sockets sks = sks

-- The socket of an address, if it exists and can be bound.
abbrev pub socket_of : Option ℕ → Bool → List ℕ
socket_of none binds = []
socket_of (some s) binds = if binds then s ∷ [] else []

abbrev pub sockets_of : List Address → List ℕ
sockets_of [] = []
sockets_of (a ∷ addresses) = socket_of a.socket a.binds ++ sockets_of addresses

abbrev pub AllListen : List Address → Type 0
AllListen [] = Unit {0}
AllListen (a ∷ addresses) = (a.listens ≡ true) × AllListen addresses

abbrev pub opened_all : List ℕ → Opened
opened_all [] = no_socket
opened_all (s ∷ sks) = opened (s ∷ sks)

open_one-socket_of :
    (a : Address) (sks : List ℕ) (taken : List ℕ → Opened) (o : Option ℕ) (b : Bool)
    → a.socket ≡ o
    → a.binds ≡ b
    → a.listens ≡ true
    → open_one a sks (taken sks) (λ s. taken (sks ++ s ∷ [])) ≡ taken (sks ++ socket_of o b)
unfolding open_one
open_one-socket_of a sks taken none b p q r = rw (p, open_one) (ap taken (sym (append-nil sks)))
open_one-socket_of a sks taken (some s) true p q r = rw (p, q, r, open_one) refl
open_one-socket_of a sks taken (some s) false p q r =
    rw (p, q, open_one) (ap taken (sym (append-nil sks)))

open_loop-sockets_of :
    (addresses : List Address) (sks : List ℕ)
    → AllListen addresses
    → open_loop addresses sks ≡ opened_all (sks ++ sockets_of addresses)
unfolding open_loop
open_loop-sockets_of [] [] h = refl
open_loop-sockets_of [] (s ∷ sks) h = ap opened_all (sym (append-nil (s ∷ sks)))
open_loop-sockets_of (a ∷ addresses) sks h =
    open_one-socket_of a sks (λ l. open_loop addresses l) a.socket a.binds refl refl h.0
    ∙ open_loop-sockets_of addresses (sks ++ socket_of a.socket a.binds) h.1
    ∙ ap opened_all (append_assoc sks (socket_of a.socket a.binds) (sockets_of addresses))

-- When every socket that is bound can listen, `daemon_open_sockets` opens the sockets of the addresses that
-- have one that can be bound, in the order of the addresses, or exits if there are none.
pub daemon_open_sockets-sockets_of :
    (addresses : List Address)
    → AllListen addresses
    → daemon_open_sockets addresses ≡ opened_all (sockets_of addresses)
unfolding daemon_open_sockets
daemon_open_sockets-sockets_of addresses h = open_loop-sockets_of addresses [] h
