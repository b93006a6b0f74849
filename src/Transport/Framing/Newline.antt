-- ===== src/Transport/Framing/Newline.antt =====
-- Newline framing: the frames that are read are the frames that were sent, however the bytes were cut into
-- chunks; and what the size limit does.
use automated_reconciliation.Common.{
  ℕ, zero, suc, ltb, Bool-cases, ◌<◌, ◌≤◌, ◌≡◌, inl, inr, refl, ap, false, none, some, List, [],
  ◌∷◌, ◌++◌, length, arith, All, ok, err, Result, length-append, take-length-append, Option-cases,
}
use mathlib.Core.List.{append_assoc}
use automated_reconciliation.Transport.Framing.{
  find, Received, chunk, failed, Connection, newline, is_blank, scan_buffer, read_newline, Read,
  ReadError, after, frame_too_long,
}
use automated_reconciliation.Transport.Framing.Prefixes.{
  find-bound, find-some-append, find-Without, Chunks, wire_of, bytes_of, cut_cases, Without,
  find-append, find-none, Without-left, drop-suc-length-append,
}

-- What a sender may put before a newline.
pub record IsFrame (max_frame_bytes : ℕ) (frame : List ℕ) : Type 0 where
  pub no_newline : Without newline frame
  pub fits : length frame ≤ max_frame_bytes
  pub not_blank : is_blank frame ≡ false

scan_buffer_complete :
    (max_frame_bytes : ℕ) (frame rest : List ℕ)
    → IsFrame max_frame_bytes frame
    → scan_buffer max_frame_bytes (frame ++ newline ∷ rest) ≡ some (ok frame, rest)
unfolding scan_buffer
scan_buffer_complete w frame rest h = ground (
  arith,
  find-append newline frame rest h.no_newline,
  take-length-append frame (newline ∷ rest),
  drop-suc-length-append frame rest newline,
  h.fits,
  h.not_blank,
)

scan_buffer-partial :
    (max_frame_bytes : ℕ) (b more : List ℕ)
    → IsFrame max_frame_bytes (b ++ more)
    → scan_buffer max_frame_bytes b ≡ none
unfolding scan_buffer
scan_buffer-partial w b more h = ground (
  arith,
  find-none newline b (Without-left newline b more h.no_newline),
  h.fits,
  length-append b more,
)

read_newline-scanned :
    (max_frame_bytes : ℕ) (buffer rest : List ℕ) (wire : List Received)
    (r : Result ReadError (List ℕ))
    → scan_buffer max_frame_bytes buffer ≡ some (r, rest)
    → read_newline max_frame_bytes buffer wire ≡ (r, record { buffer = rest; wire = wire })
unfolding read_newline
read_newline-scanned w buffer rest [] r h = rw (h, read_newline)
read_newline-scanned w buffer rest (failed ∷ wire) r h = rw (h, read_newline)
read_newline-scanned w buffer rest (chunk [] ∷ wire) r h = rw (h, read_newline)
read_newline-scanned w buffer rest (chunk (x ∷ bs) ∷ wire) r h = rw (h, read_newline)

-- If the bytes in the buffer and on the wire are a frame, a newline and `rest`, then one read returns that
-- frame, and the bytes that it leaves in the buffer and on the wire are `rest`.
pub read_newline-frame :
    (max_frame_bytes : ℕ) (frame rest buffer : List ℕ) (cs : Chunks)
    → IsFrame max_frame_bytes frame
    → buffer ++ bytes_of cs ≡ frame ++ newline ∷ rest
    → (b : List ℕ) × (left : Chunks) × (read_newline max_frame_bytes buffer (wire_of cs)
        ≡ (ok frame, record { buffer = b; wire = wire_of left }))
      × (b ++ bytes_of left ≡ rest)
unfolding read_newline
read_newline-frame w frame rest buffer [] h e = elim (cut_cases newline buffer [] frame rest e) [
  | inl (b, p, q) ↦ (
    b,
    [],
    rw p (
        read_newline-scanned w (frame ++ newline ∷ b) b [] (ok frame)
          (scan_buffer_complete w frame b h)),
    q,
  )
  | inr (more, p, q) ↦ absurd (no_room more q)
]
  where
    no_room : (more : List ℕ) → [] ≡ more ++ newline ∷ rest → ⊥
    no_room [] q = cc
    no_room (x ∷ more) q = cc
read_newline-frame w frame rest buffer ((c, bs) ∷ cs) h e =
    elim (cut_cases newline buffer ((c ∷ bs) ++ bytes_of cs) frame rest e) [
      | inl (b, p, q) ↦ (
        b,
        (c, bs) ∷ cs,
        rw p (
            read_newline-scanned w (frame ++ newline ∷ b) b (wire_of ((c, bs) ∷ cs)) (ok frame)
              (scan_buffer_complete w frame b h)),
        q,
      )
      | inr (more, p, q) ↦
          let (b, left, run, kept) =
            read_newline-frame w frame rest (buffer ++ c ∷ bs) cs h (rw append_assoc e) in
          (b, left, rw (scan_buffer-partial w buffer more (rw p at h), read_newline) run, kept)
    ]

-- The bytes of one frame after another, as a newline sender writes them.
unfoldable pub encode_lines : List (List ℕ) → List ℕ
encode_lines [] = []
encode_lines (frame ∷ frames) = frame ++ newline ∷ encode_lines frames

-- As many reads as there are frames, one after another, up to the first error.
unfoldable pub read_lines : ℕ → ℕ → Connection → Read (List (List ℕ))
read_lines max_frame_bytes zero c = (ok [], c)
read_lines max_frame_bytes (suc n) c =
    after (read_newline max_frame_bytes c.buffer c.wire)
      λ frame c'. after (read_lines max_frame_bytes n c') λ frames c''. (ok (frame ∷ frames), c'')

-- Frames that are sent one after another, in chunks of any sizes, are read back one by one, in order, and
-- the bytes that follow them stay.
pub read_lines-encode_lines :
    (max_frame_bytes : ℕ) (frames : List (List ℕ)) (rest buffer : List ℕ) (cs : Chunks)
    → All (IsFrame max_frame_bytes) frames
    → buffer ++ bytes_of cs ≡ encode_lines frames ++ rest
    → (b : List ℕ) × (left : Chunks) × (read_lines max_frame_bytes
          (length frames)
          (record { buffer = buffer; wire = wire_of cs })
        ≡ (ok frames, record { buffer = b; wire = wire_of left }))
      × (b ++ bytes_of left ≡ rest)
unfolding read_lines encode_lines
read_lines-encode_lines w [] rest buffer cs h e = (buffer, cs, refl, e)
read_lines-encode_lines w (frame ∷ frames) rest buffer cs h e =
    let (b, left, run, kept) =
      read_newline-frame w frame (encode_lines frames ++ rest) buffer cs h.0
        (rw append_assoc at e) in
    let (b', left', run', kept') = read_lines-encode_lines w frames rest b left h.1 kept in
    (b', left', rw (run, read_lines) (rw run'), kept')

-- A buffer over the limit, of bytes that start with too many without a newline.
scan_buffer-oversized :
    (max_frame_bytes : ℕ) (buffer more head rest : List ℕ)
    → Without newline head
    → max_frame_bytes < length head
    → buffer ++ more ≡ head ++ rest
    → max_frame_bytes < length buffer
    → scan_buffer max_frame_bytes buffer ≡ some (err frame_too_long, buffer)
unfolding scan_buffer
scan_buffer-oversized w buffer more head rest h long e over =
    elim (Option-cases (find newline buffer)) [
      | inl missing ↦ ground (arith, missing, over)
      | inr (d, found) ↦
          let far =
            find-Without newline head rest d h
              (rw e at (find-some-append newline buffer more d found)) in
          ground (arith, found, far, long)
    ]

-- A buffer within the limit, of such bytes.
scan_buffer-waits :
    (max_frame_bytes : ℕ) (buffer more head rest : List ℕ)
    → Without newline head
    → max_frame_bytes < length head
    → buffer ++ more ≡ head ++ rest
    → length buffer ≤ max_frame_bytes
    → scan_buffer max_frame_bytes buffer ≡ none
unfolding scan_buffer
scan_buffer-waits w buffer more head rest h long e within =
    elim (Option-cases (find newline buffer)) [
      | inl missing ↦ ground (arith, missing, within)
      | inr (d, found) ↦
          let far =
            find-Without newline head rest d h
              (rw e at (find-some-append newline buffer more d found)) in
          absurd (omega (arith, far, long, within, find-bound newline buffer d found))
    ]

-- A read is refused for the length of the frame, and leaves in the buffer and on the wire what `bytes` are; and with that buffer every
-- read is refused, and receives nothing.
abbrev pub Oversized : ℕ → List ℕ → List ℕ → Chunks → Type 0
Oversized max_frame_bytes bytes buffer cs =
    (b : List ℕ) × (left : Chunks) × (b ++ bytes_of left ≡ bytes)
    × ((wire : List Received)
        → read_newline max_frame_bytes b wire
          ≡ (err frame_too_long, record { buffer = b; wire = wire }))
    × (read_newline max_frame_bytes buffer (wire_of cs)
        ≡ (err frame_too_long, record { buffer = b; wire = wire_of left }))

refused_at_once :
    (max_frame_bytes : ℕ) (head rest buffer : List ℕ) (cs : Chunks)
    → Without newline head
    → max_frame_bytes < length head
    → buffer ++ bytes_of cs ≡ head ++ rest
    → max_frame_bytes < length buffer
    → Oversized max_frame_bytes (head ++ rest) buffer cs
refused_at_once w head rest buffer cs h long e over =
    let scanned = scan_buffer-oversized w buffer (bytes_of cs) head rest h long e over in
    (
      buffer,
      cs,
      e,
      λ wire. read_newline-scanned w buffer buffer wire (err frame_too_long) scanned,
      read_newline-scanned w buffer buffer (wire_of cs) (err frame_too_long) scanned,
    )

-- If the bytes in the buffer and on the wire start with more than `max_frame_bytes` that are no newline, then a read is refused for the
-- length of the frame, however the bytes are cut into chunks. No byte is lost: the frame stays in the buffer, and every later read
-- of the connection is refused in the same way, and receives nothing.
pub read_newline-Oversized :
    (max_frame_bytes : ℕ) (head rest buffer : List ℕ) (cs : Chunks)
    → Without newline head
    → max_frame_bytes < length head
    → buffer ++ bytes_of cs ≡ head ++ rest
    → Oversized max_frame_bytes (head ++ rest) buffer cs
unfolding read_newline
read_newline-Oversized w head rest buffer [] h long e =
    refused_at_once w head rest buffer [] h long e
      (omega (arith, long, length-append buffer [], length-append head rest, ap length e))
read_newline-Oversized w head rest buffer ((c, bs) ∷ cs) h long e =
    elim (Bool-cases (ltb w (length buffer))) [
      | inl over ↦ refused_at_once w head rest buffer ((c, bs) ∷ cs) h long e (ground (arith, over))
      | inr within ↦
          let waits =
            scan_buffer-waits w buffer ((c ∷ bs) ++ bytes_of cs) head rest h long e
              (ground (arith, within)) in
          let (b, left, all, again, run) =
            read_newline-Oversized w head rest (buffer ++ c ∷ bs) cs h long (rw append_assoc e) in
          (b, left, all, again, rw (waits, read_newline) run)
    ]
