-- ===== src/Tests/Sockets.antt =====
-- Sockets over the small machine: names in numbers, and a server that answers at once.
use ai_ppdb.Base.{ℕ, refl, true, false, [], ◌∷◌, Option, none, some, arith, Bool-cases, inl, inr}
use ai_ppdb.Config.{default_config}
use ai_ppdb.Net.{Socket, Address, SocketCalls, pending}
use ai_ppdb.Net.Connect.{infra_net_connect}
use ai_ppdb.Net.Balance.{IsSockets, Tally, infra_net_connect-Tally}
use ai_ppdb.Net.Exchange.{
  Incoming, nothing_pending, incoming, moved, ExchangeCalls, infra_net_accept,
}
use ai_ppdb.Net.Clients.{AcceptLaw, Accounts, infra_net_accept-Accounts}
use ai_ppdb.Tests.Machine.{Desk, machine, machine-IsSystem, take_file}

abbrev calls : SocketCalls machine
calls = record {
  socket = λ udp s. take_file s;
  get_flags = λ d s. (some 2, s);
  set_flags = λ d f s. (true, s);
  set_option = λ o d s. (true, s);
  bind = λ d h p s. (true, s);
  listen = λ d s. (true, s);
  connect = λ d h p s. (pending, s);
  select = λ d w s. (some true, s);
  socket_error = λ d s. (some 0, s);
  pton = λ host. some 16909060;
  nonblock_bit = 2048;
}

calls-IsSockets : IsSockets machine calls
calls-IsSockets = record {
  socket-fresh = λ udp s d e. machine-IsSystem.epoll-fresh s d e;
  socket-opened = λ udp s d q e.
      (machine-IsSystem.epoll-live s q, ground (arith, machine-IsSystem.epoll-opened s d q e));
  socket-fail = λ udp s e q. (machine-IsSystem.epoll-live s q, machine-IsSystem.epoll-fail s q e);
  get_flags-Same = λ d s q. (refl, refl);
  set_flags-Same = λ d f s q. (refl, refl);
  set_option-Same = λ o d s q. (refl, refl);
  connect-Same = λ d h p s q. (refl, refl);
  select-Same = λ d w s q. (refl, refl);
  socket_error-Same = λ d s q. (refl, refl);
}

abbrev desk : Desk
desk = record { next = 5; held = λ p. false; files = λ d. false }

abbrev server : Address
server = record { host = 49 ∷ []; port = 80 }

infra_net_connect-Tally_example :
    Tally machine calls machine-IsSystem calls-IsSockets desk
      (infra_net_connect machine calls (some server) true (some default_config) none desk)
infra_net_connect-Tally_example =
    infra_net_connect-Tally machine calls machine-IsSystem calls-IsSockets server default_config
      desk

abbrev incoming_file : Option ℕ × Desk → Incoming × Desk
incoming_file (none, s) = (nothing_pending, s)
incoming_file (some d, s) = (incoming d, s)

-- A client comes in at once.
abbrev exchange : ExchangeCalls machine
exchange = record {
  accept = λ d s. incoming_file (take_file s);
  printed = λ d s. true;
  send = λ d bytes s. (moved 1, s);
  recv = λ d n s. (moved 1, s);
  send_to = λ d bytes h p s. (moved 1, s);
}

exchange-AcceptLaw : (d : ℕ) (s : Desk) → AcceptLaw machine s (exchange.accept d s)
exchange-AcceptLaw d s = elim (Bool-cases (s.files s.next)) [
  | inl e ↦ rw e (λ q. (refl, refl))
  | inr e ↦ rw e (e, λ q. (refl, ground arith))
]

abbrev listener : Socket
listener = record { addr = 2; fd = 3; is_udp = false }

infra_net_accept-Accounts_example :
    Accounts machine calls exchange machine-IsSystem calls-IsSockets exchange-AcceptLaw true desk
      (infra_net_accept machine calls exchange (some listener) true true desk)
infra_net_accept-Accounts_example =
    infra_net_accept-Accounts machine calls exchange machine-IsSystem calls-IsSockets
      exchange-AcceptLaw listener true desk
