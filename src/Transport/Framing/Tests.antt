-- ===== src/Transport/Framing/Tests.antt =====
-- The framed reads of `class TCPTransport` on concrete bytes, and the theorems about them at an input.
use automated_reconciliation.Common.{ℕ, arith, ◌≡◌, refl, List, [], ◌∷◌, ◌++◌, ok}
use automated_reconciliation.Transport.Framing.{read_length_prefixed}
use automated_reconciliation.Transport.Framing.Prefixes.{Chunks, wire_of, bytes_of}
use automated_reconciliation.Transport.Framing.Newline.{
  read_lines, encode_lines, read_lines-encode_lines, read_newline-Oversized, Oversized,
}
use automated_reconciliation.Transport.Framing.LengthPrefixed.{read_length_prefixed-frame, pack}

-- "ab\ncd\ne" in three chunks.
abbrev sent : Chunks
sent = (97, 98 ∷ []) ∷ (10, 99 ∷ []) ∷ (100, 10 ∷ 101 ∷ []) ∷ []

read_lines-encode_lines_example :
    (b : List ℕ) × (left : Chunks) × (read_lines 2 2 (record { buffer = []; wire = wire_of sent })
      ≡ (ok ((97 ∷ 98 ∷ []) ∷ (99 ∷ 100 ∷ []) ∷ []), record { buffer = b; wire = wire_of left }))
    × (b ++ bytes_of left ≡ 101 ∷ [])
unfolding encode_lines
read_lines-encode_lines_example =
    read_lines-encode_lines 2 ((97 ∷ 98 ∷ []) ∷ (99 ∷ 100 ∷ []) ∷ []) (101 ∷ []) [] sent
      (
        record {
          no_newline = ((λ e. omega arith), ((λ e. omega arith), tt));
          fits = omega arith;
          not_blank = refl;
        },
        (
          record {
            no_newline = ((λ e. omega arith), ((λ e. omega arith), tt));
            fits = omega arith;
            not_blank = refl;
          },
          tt,
        ),
      )
      refl

-- The length 2 in four bytes, cut in the middle, and the frame.
abbrev prefixed : Chunks
prefixed = (0, 0 ∷ []) ∷ (0, 2 ∷ 97 ∷ []) ∷ (98, 7 ∷ []) ∷ []

read_length_prefixed-frame_example :
    (b : List ℕ) × (left : Chunks) × (read_length_prefixed 5
        (record { buffer = []; wire = wire_of prefixed })
      ≡ (ok (97 ∷ 98 ∷ []), record { buffer = b; wire = wire_of left }))
    × (b ++ bytes_of left ≡ 7 ∷ [])
unfolding pack
read_length_prefixed-frame_example =
    read_length_prefixed-frame 5 97 (98 ∷ []) (7 ∷ []) [] prefixed (omega arith) (omega arith) refl

-- Three bytes before the newline, where two are allowed, in two chunks.
abbrev long_frame : Chunks
long_frame = (97, 98 ∷ []) ∷ (99, 10 ∷ 100 ∷ []) ∷ []

read_newline-Oversized_example : Oversized 2 (97 ∷ 98 ∷ 99 ∷ 10 ∷ 100 ∷ []) [] long_frame
read_newline-Oversized_example =
    read_newline-Oversized 2 (97 ∷ 98 ∷ 99 ∷ []) (10 ∷ 100 ∷ []) [] long_frame
      ((λ e. omega arith), ((λ e. omega arith), ((λ e. omega arith), tt))) (omega arith) refl
