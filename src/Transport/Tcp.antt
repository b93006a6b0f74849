-- ===== src/Transport/Tcp.antt =====
-- `class TCPTransport` of reconciliation_engine/realtime/network_transport.py: `__init__`, `connect`, `receive` and
-- `close`. What `_decode_event` makes of a frame is a parameter, and so are the delays' unit and the dials:
-- what `socket_factory` and the TLS handshake do at each successive attempt to connect.
pub mod Recovery
mod Tests
use automated_reconciliation.Common.{
  ℕ, zero, suc, ◌+◌, ◌*◌, ◌^◌, Bool, true, false, ◌&&◌, ◌||◌, Option, none, some, List, [], ◌∷◌,
  ◌++◌, leb, ltb, if◌then◌else◌, Text, is_empty, strip, text, lower, ◌==◌, nat_eq, list_eq, Result,
  ok, err, ◌>>=◌, ◌>>◌, raise_if,
}
use automated_reconciliation.Common.Int.{ℤ, pos, magnitude, ltb_ℤ, leb_ℤ}
use automated_reconciliation.Transport.Framing.{
  Framing, newline_framing, length_prefixed, Received, Connection, ReadError, frame_too_long,
  frame_empty, connection_closed, os_error, read_frame,
}

-- The ValueErrors of `__init__` and of `_validate_port`.
pub data ConfigError : Type 0 where
  empty_host bad_port bad_framing bad_timeout bad_reconnect bad_frame_limit : ConfigError

pub record Config : Type 0 where
  pub host : Text
  pub port : ℕ
  pub framing : Framing
  pub tls : Bool
  pub reconnect_attempts : ℕ
  pub reconnect_backoff : ℕ
  pub max_frame_bytes : ℕ

-- `_validate_port`
unfoldable pub validate_port : ℤ → Result ConfigError ℕ
validate_port port =
    if leb_ℤ (pos 1) port && leb_ℤ port (pos 65535) then ok (magnitude port) else err bad_port

abbrev pub parse_framing : Text → Result ConfigError Framing
parse_framing framing =
    let normalized = lower (strip framing) in
    if normalized == text "newline"
    then ok newline_framing
    else if normalized == text "length-prefixed"
    then ok length_prefixed
    else err bad_framing

-- The arguments of `__init__` that it tests; the times are whole numbers of one unit.
pub record Arguments : Type 0 where
  pub host : Text
  pub port : ℤ
  pub framing : Text
  pub tls : Bool
  pub connect_timeout : ℤ
  pub read_timeout : ℤ
  pub reconnect_attempts : ℤ
  pub reconnect_backoff : ℤ
  pub max_frame_bytes : ℤ

-- `__init__`
unfoldable pub configure : Arguments → Result ConfigError Config
unfolding validate_port strip
configure a = do
  raise_if (is_empty (strip a.host)) empty_host
  port ← validate_port a.port
  framing ← parse_framing a.framing
  raise_if (leb_ℤ a.connect_timeout (pos 0) || leb_ℤ a.read_timeout (pos 0)) bad_timeout
  raise_if (ltb_ℤ a.reconnect_attempts (pos 0) || ltb_ℤ a.reconnect_backoff (pos 0)) bad_reconnect
  raise_if (leb_ℤ a.max_frame_bytes (pos 0)) bad_frame_limit
  ok (record {
    host = strip a.host;
    port = port;
    framing = framing;
    tls = a.tls;
    reconnect_attempts = magnitude a.reconnect_attempts;
    reconnect_backoff = magnitude a.reconnect_backoff;
    max_frame_bytes = magnitude a.max_frame_bytes;
  })

-- One attempt to connect: OSError, or a connection on which `recv` will return these.
pub data Dial : Type 0 where
  refused : Dial
  accepted : List Received → Dial

-- The transport's state, and what it has asked of its surroundings: the dials that are still to come (every
-- further one is refused), and the delays that it has slept.
pub record Tcp : Type 0 where
  pub socket : Option (List Received)
  pub buffer : List ℕ
  pub dials : List Dial
  pub slept : List ℕ

abbrev pub fresh : List Dial → Tcp
fresh dials = record { socket = none; buffer = []; dials = dials; slept = [] }

-- `connect` of a transport with no socket
abbrev pub dial : List Dial → Tcp → Result ReadError (List Received) × Tcp
dial [] s = (err os_error, s)
dial (refused ∷ dials) s = (err os_error, record s { dials = dials })
dial (accepted wire ∷ dials) s =
    (ok wire, record s { socket = some wire; buffer = []; dials = dials })

-- `connect`
unfoldable pub connect : Tcp → Result ReadError (List Received) × Tcp
connect s = elim s.socket [ some wire ↦ (ok wire, s) | none ↦ dial s.dials s ]

-- `close`
abbrev pub close : Tcp → Tcp
close s = record s { socket = none; buffer = [] }

-- How `receive` ends: with an event, with an exception about the frame, or with TransportError.
pub data ReceiveError (E : Type 0) : Type 0 where
  bad_frame : ReadError → ReceiveError E
  rejected : E → ReceiveError E
  transport_failed : ReceiveError E

-- The exceptions that `receive` catches: ConnectionClosedError and OSError, but not FrameError.
abbrev pub is_caught : ReadError → Bool
is_caught frame_too_long = false
is_caught frame_empty = false
is_caught connection_closed = true
is_caught os_error = true

module _ {E A : Type 0} (decode : List ℕ → Result E A) (config : Config) where
  -- A frame, or how an attempt failed, with the transport after it.
  abbrev pub read_from : Result ReadError (List Received) × Tcp → Result ReadError (List ℕ) × Tcp
  read_from (err e, s) = (err e, s)
  read_from (ok wire, s) =
      let read =
        read_frame config.framing config.max_frame_bytes
          (record { buffer = s.buffer; wire = wire }) in
      (read.0, record s { socket = some read.1.wire; buffer = read.1.buffer })

  -- `self.connect()` and `self._read_frame()`
  unfoldable pub attempt_once : Tcp → Result ReadError (List ℕ) × Tcp
  attempt_once s = read_from (connect s)

  abbrev pub decoded : Result E A → Result (ReceiveError E) A
  decoded (ok event) = ok event
  decoded (err e) = err (rejected e)

  -- What one round makes of its attempt, given what the rounds after it would do.
  abbrev pub finish_round :
      ℕ
      → (Tcp → Result (ReceiveError E) A × Tcp)
      → Result ReadError (List ℕ) × Tcp
      → Result (ReceiveError E) A × Tcp
  finish_round attempt retry (ok frame, s) = (decoded (decode frame), s)
  finish_round attempt retry (err e, s) = elim (is_caught e) [
    | false ↦ (err (bad_frame e), s)
    | true ↦
        if leb config.reconnect_attempts attempt
        then (err transport_failed, close s)
        else retry
            (record (close s) { slept = s.slept ++ (config.reconnect_backoff * 2 ^ attempt) ∷ [] })
  ]

  -- `for attempt in range(self.reconnect_attempts + 1)`, from some attempt on
  unfoldable pub receive_from : ℕ → ℕ → Tcp → Result (ReceiveError E) A × Tcp
  receive_from zero attempt s = (err transport_failed, s)
  receive_from (suc rounds) attempt s =
      finish_round attempt (receive_from rounds (suc attempt)) (attempt_once s)

  -- `receive`
  unfoldable pub receive : Tcp → Result (ReceiveError E) A × Tcp
  receive = receive_from (config.reconnect_attempts + 1) 0
