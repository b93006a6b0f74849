-- ===== src/Transport/Tcp/Tests.antt =====
-- `class TCPTransport` on concrete connections, and the theorems about it at an input.
use automated_reconciliation.Common.{
  ℕ, arith, ◌≡◌, refl, false, none, some, List, [], ◌∷◌, Text, text, Result, ok, err,
}
use automated_reconciliation.Common.Int.{pos}
use automated_reconciliation.Transport.Framing.{
  newline_framing, chunk, failed, read_frame, read_newline, scan_buffer, find,
}
use automated_reconciliation.Transport.Tcp.{
  Config, bad_port, Dial, refused, accepted, fresh, transport_failed, receive, validate_port,
}
use automated_reconciliation.Transport.Tcp.Recovery.{
  delays, receive-recovers, receive-gives_up, Leaves, receive-Leaves,
}

-- Two further attempts, after 3 and then 6 units of time.
abbrev config : Config
config = record {
  host = text "localhost";
  port = 8000;
  framing = newline_framing;
  tls = false;
  reconnect_attempts = 2;
  reconnect_backoff = 3;
  max_frame_bytes = 10;
}

-- An event is the bytes of its frame.
abbrev decode : List ℕ → Result Text (List ℕ)
decode frame = ok frame

-- One that breaks off in the middle of a frame.
abbrev broken_off : Dial
broken_off = accepted (chunk (97 ∷ []) ∷ failed ∷ [])

port_range : validate_port (pos 65536) ≡ err bad_port
unfolding validate_port
port_range = refl

receive-recovers_example :
    receive decode config
      (fresh (refused ∷ broken_off ∷ accepted (chunk (98 ∷ 10 ∷ 99 ∷ []) ∷ []) ∷ []))
    ≡ (ok (98 ∷ []), record { socket = some []; buffer = 99 ∷ []; dials = []; slept = 3 ∷ 6 ∷ [] })
unfolding delays read_frame read_newline scan_buffer find
receive-recovers_example =
    receive-recovers decode config (refused ∷ broken_off ∷ []) [] (chunk (98 ∷ 10 ∷ 99 ∷ []) ∷ [])
      (98 ∷ []) (98 ∷ []) (record { buffer = 99 ∷ []; wire = [] }) (omega arith)
      (tt, ((_, _, refl, refl), tt)) refl refl

receive-gives_up_example :
    receive decode config (fresh (refused ∷ broken_off ∷ refused ∷ broken_off ∷ [])) ≡ (
      err transport_failed,
      record { socket = none; buffer = []; dials = broken_off ∷ []; slept = 3 ∷ 6 ∷ [] },
    )
unfolding delays read_frame read_newline scan_buffer find
receive-gives_up_example =
    receive-gives_up decode config (refused ∷ broken_off ∷ []) refused (broken_off ∷ []) refl
      (tt, ((_, _, refl, refl), tt)) tt

receive-Leaves_example :
    Leaves decode config (receive decode config (fresh (refused ∷ broken_off ∷ refused ∷ [])))
receive-Leaves_example = receive-Leaves decode config (fresh (refused ∷ broken_off ∷ refused ∷ []))
