-- ===== src/Transport/Framing.antt =====
-- The framed reads of `class TCPTransport` (reconciliation_engine/realtime/network_transport.py): `_recv`,
-- `_read_newline_frame`, `_fill`, `_read_length_prefixed_frame` and `_read_frame`. A connection is its
-- buffer and what its successive calls of `recv` will return; after those, a call of `recv` times out.
mod Prefixes
mod Tests
pub mod Newline
pub mod LengthPrefixed
use automated_reconciliation.Common.{
  ℕ, zero, suc, ◌+◌, ◌*◌, Bool, true, false, ◌&&◌, ◌||◌, Option, none, some, List, [], ◌∷◌, ◌++◌,
  ltb, leb, if◌then◌else◌, length, take, drop, ◌==◌, nat_eq, Result, ok, err, Option-cases,
}

pub data Received : Type 0 where
  chunk : List ℕ → Received
  failed : Received

-- FrameError in its two forms, ConnectionClosedError, and OSError with `socket.timeout`.
pub data ReadError : Type 0 where
  frame_too_long frame_empty connection_closed os_error : ReadError

pub record Connection : Type 0 where
  pub buffer : List ℕ
  pub wire : List Received

abbrev pub Read : Type 0 → Type 0
Read A = Result ReadError A × Connection

-- What follows a read that did not raise.
abbrev pub after : {A B : Type 0} → Read A → (A → Connection → Read B) → Read B
after (err e, c) k = (err e, c)
after (ok a, c) k = k a c

abbrev pub newline : ℕ
newline = 10

-- `bytearray.find` of one byte
unfoldable pub find : ℕ → List ℕ → Option ℕ
find b [] = none
find b (c ∷ cs) = elim (b == c) [
  | true ↦ some 0
  | false ↦ elim (find b cs) [ none ↦ none | some i ↦ some (suc i) ]
]

abbrev pub is_byte_space : ℕ → Bool
is_byte_space c = c == 32 || (leb 9 c && leb c 13)

-- `not frame.strip()`
abbrev pub is_blank : List ℕ → Bool
is_blank [] = true
is_blank (c ∷ cs) = is_byte_space c && is_blank cs

-- A round of `_read_newline_frame` before it receives: `none` is that it has to receive more.
unfoldable pub scan_buffer : ℕ → List ℕ → Option (Result ReadError (List ℕ) × List ℕ)
unfolding find
scan_buffer max_frame_bytes buffer = elim (find newline buffer) [
  | some delimiter ↦
      if ltb max_frame_bytes delimiter
      then some (err frame_too_long, buffer)
      else let frame = take delimiter buffer in
        let rest = drop (suc delimiter) buffer in
        if is_blank frame then some (err frame_empty, rest) else some (ok frame, rest)
  | none ↦ if ltb max_frame_bytes (length buffer) then some (err frame_too_long, buffer) else none
]

-- `_read_newline_frame`
unfoldable pub read_newline : ℕ → List ℕ → List Received → Read (List ℕ)
read_newline max_frame_bytes buffer [] = elim (scan_buffer max_frame_bytes buffer) [
  | some (result, rest) ↦ (result, record { buffer = rest; wire = [] })
  | none ↦ (err os_error, record { buffer = buffer; wire = [] })
]
read_newline max_frame_bytes buffer (failed ∷ wire) = elim (scan_buffer max_frame_bytes buffer) [
  | some (result, rest) ↦ (result, record { buffer = rest; wire = failed ∷ wire })
  | none ↦ (err os_error, record { buffer = buffer; wire = wire })
]
read_newline max_frame_bytes buffer (chunk [] ∷ wire) = elim (scan_buffer max_frame_bytes buffer) [
  | some (result, rest) ↦ (result, record { buffer = rest; wire = chunk [] ∷ wire })
  | none ↦ (err connection_closed, record { buffer = buffer; wire = wire })
]
read_newline max_frame_bytes buffer (chunk (b ∷ bs) ∷ wire) =
    elim (scan_buffer max_frame_bytes buffer) [
      | some (result, rest) ↦ (result, record { buffer = rest; wire = chunk (b ∷ bs) ∷ wire })
      | none ↦ read_newline max_frame_bytes (buffer ++ b ∷ bs) wire
    ]

-- `_fill`
unfoldable pub fill : ℕ → List ℕ → List Received → Read (Unit {0})
fill size buffer [] = elim (ltb (length buffer) size) [
  | true ↦ (err os_error, record { buffer = buffer; wire = [] })
  | false ↦ (ok tt, record { buffer = buffer; wire = [] })
]
fill size buffer (failed ∷ wire) = elim (ltb (length buffer) size) [
  | true ↦ (err os_error, record { buffer = buffer; wire = wire })
  | false ↦ (ok tt, record { buffer = buffer; wire = failed ∷ wire })
]
fill size buffer (chunk [] ∷ wire) = elim (ltb (length buffer) size) [
  | true ↦ (err connection_closed, record { buffer = buffer; wire = wire })
  | false ↦ (ok tt, record { buffer = buffer; wire = chunk [] ∷ wire })
]
fill size buffer (chunk (b ∷ bs) ∷ wire) = elim (ltb (length buffer) size) [
  | true ↦ fill size (buffer ++ b ∷ bs) wire
  | false ↦ (ok tt, record { buffer = buffer; wire = chunk (b ∷ bs) ∷ wire })
]

abbrev pub get_byte : ℕ → List ℕ → ℕ
get_byte i [] = 0
get_byte zero (b ∷ bs) = b
get_byte (suc i) (b ∷ bs) = get_byte i bs

-- `struct.unpack("!I", ...)` of four bytes
unfoldable pub unpack : List ℕ → ℕ
unpack bs = get_byte 0 bs * 16777216 + get_byte 1 bs * 65536 + get_byte 2 bs * 256 + get_byte 3 bs

-- `_read_length_prefixed_frame`, after the length is taken off the buffer
unfoldable pub read_body : ℕ → ℕ → Connection → Read (List ℕ)
read_body max_frame_bytes zero c = (err frame_empty, c)
read_body max_frame_bytes (suc n) c =
    if ltb max_frame_bytes (suc n)
    then (err frame_too_long, c)
    else after (fill (suc n) c.buffer c.wire)
        λ _ c'. (ok (take (suc n) c'.buffer), record c' { buffer = drop (suc n) c'.buffer })

unfoldable pub read_length_prefixed : ℕ → Connection → Read (List ℕ)
read_length_prefixed max_frame_bytes c = after (fill 4 c.buffer c.wire) λ _ c'.
    read_body max_frame_bytes (unpack (take 4 c'.buffer)) (record c' { buffer = drop 4 c'.buffer })

pub data Framing : Type 0 where
  newline_framing length_prefixed : Framing

-- `_read_frame`
unfoldable pub read_frame : Framing → ℕ → Connection → Read (List ℕ)
read_frame newline_framing max_frame_bytes c = read_newline max_frame_bytes c.buffer c.wire
read_frame length_prefixed max_frame_bytes c = read_length_prefixed max_frame_bytes c
