-- ===== src/Transport/Framing/LengthPrefixed.antt =====
-- Length-prefixed framing: the frames that are read are the frames that were sent, however the bytes were
-- cut into chunks.
use automated_reconciliation.Common.{
  ℕ, suc, ◌/◌, ◌%◌, ◌≤◌, ◌<◌, ◌≡◌, refl, ap, ◌∙◌, List, [], ◌∷◌, ◌++◌, length, take, drop, ltb,
  arith, ok, length-append, Bool-cases, inl, inr,
}
use mathlib.Core.List.{append_assoc, append-nil}
use automated_reconciliation.Transport.Framing.{
  Connection, fill, unpack, read_body, read_length_prefixed,
}
use automated_reconciliation.Transport.Framing.Prefixes.{Chunks, wire_of, bytes_of}

-- `struct.pack("!I", n)`
unfoldable pub pack : ℕ → List ℕ
pack n = (n / 16777216 % 256) ∷ (n / 65536 % 256) ∷ (n / 256 % 256) ∷ (n % 256) ∷ []

unpack-pack : (n : ℕ) → n < 4294967296 → unpack (pack n) ≡ n
unfolding unpack pack
unpack-pack n h = omega arith

-- `_fill` gets as many bytes as it wants, if they are there, and loses none.
fill-enough :
    (size : ℕ) (buffer : List ℕ) (cs : Chunks)
    → size ≤ length (buffer ++ bytes_of cs)
    → (b : List ℕ) × (left : Chunks) × (fill size buffer (wire_of cs)
        ≡ (ok tt, record { buffer = b; wire = wire_of left }))
      × (b ++ bytes_of left ≡ buffer ++ bytes_of cs)
      × (size ≤ length b)
unfolding fill
fill-enough size buffer [] h = (
  buffer,
  [],
  ground (arith, ap length (append-nil buffer)),
  refl,
  omega (arith, ap length (append-nil buffer)),
)
fill-enough size buffer ((c, bs) ∷ cs) h = elim (Bool-cases (ltb (length buffer) size)) [
  | inl short ↦
      let (b, left, run, kept, enough) =
        fill-enough size (buffer ++ c ∷ bs) cs (rw append_assoc h) in
      (b, left, rw (short, fill) run, kept ∙ append_assoc buffer (c ∷ bs) (bytes_of cs), enough)
  | inr full ↦ (buffer, (c, bs) ∷ cs, rw (full, fill), refl, ground arith)
]

-- The first bytes of what has arrived are the first bytes of the whole.
take-first :
    (frame b s rest : List ℕ)
    → b ++ s ≡ frame ++ rest
    → length frame ≤ length b
    → (take (length frame) b ≡ frame) × (drop (length frame) b ++ s ≡ rest)
take-first [] b s rest e h = (refl, e)
take-first (x ∷ frame) [] s rest e h = absurd (omega arith)
take-first (x ∷ frame) (y ∷ b) s rest e h =
    let (p, q) = take-first frame b s rest (cc) (omega arith) in (cc, q)

abbrev pub encode_frame : List ℕ → List ℕ
encode_frame frame = pack (length frame) ++ frame

read_body_lem :
    (max_frame_bytes n : ℕ) (c : Connection) {c' : Connection}
    → suc n ≤ max_frame_bytes
    → fill (suc n) c.buffer c.wire ≡ (ok tt, c')
    → read_body max_frame_bytes (suc n) c
      ≡ (ok (take (suc n) c'.buffer), record c' { buffer = drop (suc n) c'.buffer })
unfolding read_body
read_body_lem w n c h run = ground (arith, run)

read_length_prefixed_lem :
    (max_frame_bytes : ℕ) (c : Connection) {c' : Connection}
    → fill 4 c.buffer c.wire ≡ (ok tt, c')
    → read_length_prefixed max_frame_bytes c
      ≡ read_body max_frame_bytes
          (unpack (take 4 c'.buffer))
          (record c' { buffer = drop 4 c'.buffer })
unfolding read_length_prefixed
read_length_prefixed_lem w c run = rw run

read_body-frame :
    (max_frame_bytes : ℕ) (x : ℕ) (frame rest buffer : List ℕ) (cs : Chunks)
    → length (x ∷ frame) ≤ max_frame_bytes
    → buffer ++ bytes_of cs ≡ (x ∷ frame) ++ rest
    → (b : List ℕ) × (left : Chunks) × (read_body max_frame_bytes
          (length (x ∷ frame))
          (record { buffer = buffer; wire = wire_of cs })
        ≡ (ok (x ∷ frame), record { buffer = b; wire = wire_of left }))
      × (b ++ bytes_of left ≡ rest)
read_body-frame w x frame rest buffer cs h e =
    let (b, left, run, kept, enough) =
      fill-enough (length (x ∷ frame)) buffer cs
        (omega (arith, ap length e, length-append (x ∷ frame) rest)) in
    let (p, q) = take-first (x ∷ frame) b (bytes_of left) rest (kept ∙ e) enough in
    (
      drop (length (x ∷ frame)) b,
      left,
      read_body_lem w (length frame) (record { buffer = buffer; wire = wire_of cs }) h run
          ∙ ap (λ t. (ok t, record { buffer = drop (length (x ∷ frame)) b; wire = wire_of left }))
              p,
      q,
    )

-- If the bytes in the buffer and on the wire are the length of a frame that is not empty and within the
-- limit, that frame, and `rest`, then one read returns the frame, and leaves `rest`.
pub read_length_prefixed-frame :
    (max_frame_bytes : ℕ) (x : ℕ) (frame rest buffer : List ℕ) (cs : Chunks)
    → length (x ∷ frame) ≤ max_frame_bytes
    → length (x ∷ frame) < 4294967296
    → buffer ++ bytes_of cs ≡ encode_frame (x ∷ frame) ++ rest
    → (b : List ℕ) × (left : Chunks) × (read_length_prefixed max_frame_bytes
          (record { buffer = buffer; wire = wire_of cs })
        ≡ (ok (x ∷ frame), record { buffer = b; wire = wire_of left }))
      × (b ++ bytes_of left ≡ rest)
unfolding pack
read_length_prefixed-frame w x frame rest buffer cs h k e =
    let n = length (x ∷ frame) in
    let (b, left, run, kept, enough) =
      fill-enough 4 buffer cs
        (omega (arith, ap length e, length-append (pack n) ((x ∷ frame) ++ rest))) in
    let (p, q) = take-first (pack n) b (bytes_of left) ((x ∷ frame) ++ rest) (kept ∙ e) enough in
    let (b', left', run', kept') = read_body-frame w x frame rest (drop 4 b) left h q in
    (
      b',
      left',
      read_length_prefixed_lem w (record { buffer = buffer; wire = wire_of cs }) run
          ∙ rw (p, unpack-pack n k) run',
      kept',
    )
