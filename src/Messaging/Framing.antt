-- ===== src/Messaging/Framing.antt =====
-- What the chunk loop of src/bolt/messaging/request.go reads from framed bytes.
use gopher_cypher.Common.{
  ◌∙◌, ap, take, drop, ℕ, zero, suc, ◌<◌, ◌≡◌, refl, arith, List, [], ◌∷◌, ◌++◌, length,
  length-append, append_assoc, append-nil, All,
}
use gopher_cypher.Common.Int.{big_endian-put_uint16, put_uint16}
use gopher_cypher.Messaging.Connection.{Ending, read_full, full}
use gopher_cypher.Messaging.Request.{after_chunk, after_header, read_chunks, gathered}

-- A chunk with its header.
abbrev pub chunk_bytes : List ℕ → List ℕ
chunk_bytes chunk = put_uint16 (length chunk) ++ chunk

-- Chunks one after the other, and the end marker.
abbrev pub chunked : List (List ℕ) → List ℕ
chunked [] = 0x00 ∷ 0x00 ∷ []
chunked (chunk ∷ chunks) = chunk_bytes chunk ++ chunked chunks

abbrev pub concat : List (List ℕ) → List ℕ
concat [] = []
concat (chunk ∷ chunks) = chunk ++ concat chunks

-- The sizes that a chunk header can give, without the end marker's.
abbrev pub IsChunk : List ℕ → Type 0
IsChunk chunk = (0 < length chunk) × (length chunk < 65536)

take-append : (xs ys : List ℕ) → take (length xs) (xs ++ ys) ≡ xs
take-append [] ys = refl
take-append (x ∷ xs) ys = ap (λ t. x ∷ t) (take-append xs ys)

drop-append : (xs ys : List ℕ) → drop (length xs) (xs ++ ys) ≡ ys
drop-append [] ys = refl
drop-append (x ∷ xs) ys = drop-append xs ys

pub read_full-append :
    (xs ys : List ℕ) (ending : Ending) → read_full (length xs) (xs ++ ys) ending ≡ full xs ys
unfolding read_full
read_full-append xs ys ending =
    ground (arith, take-append xs ys, drop-append xs ys, length-append xs ys)

pub read_chunks-chunk :
    (fuel : ℕ) (acc chunk rest : List ℕ) (ending : Ending)
    → IsChunk chunk
    → read_chunks (suc fuel) acc ending (chunk_bytes chunk ++ rest)
      ≡ read_chunks fuel (acc ++ chunk) ending rest
unfolding read_chunks after_header after_chunk
read_chunks-chunk fuel acc chunk rest ending h = ground (
  arith,
  read_full-append (put_uint16 (length chunk)) (chunk ++ rest) ending,
  big_endian-put_uint16 (length chunk),
  read_full-append chunk rest ending,
)

pub read_chunks-end :
    (fuel : ℕ) (acc rest : List ℕ) (ending : Ending)
    → read_chunks (suc fuel) acc ending (0x00 ∷ 0x00 ∷ rest) ≡ gathered acc rest
unfolding read_chunks after_header after_chunk
read_chunks-end fuel acc rest ending =
    ground (arith, read_full-append (0x00 ∷ 0x00 ∷ []) rest ending)

-- However a message is cut into chunks of 1 to 65535 bytes, the loop, with fuel for a round more
-- than there are chunks, gathers the message and leaves what follows the end marker.
pub read_chunks-chunked :
    (chunks : List (List ℕ)) (fuel : ℕ) (acc rest : List ℕ) (ending : Ending)
    → All IsChunk chunks
    → length chunks < fuel
    → read_chunks fuel acc ending (chunked chunks ++ rest) ≡ gathered (acc ++ concat chunks) rest
read_chunks-chunked chunks zero acc rest ending h b = absurd (omega arith)
read_chunks-chunked [] (suc fuel) acc rest ending h b =
    rw append-nil (read_chunks-end fuel acc rest ending)
read_chunks-chunked (chunk ∷ chunks) (suc fuel) acc rest ending h b =
    ap (read_chunks (suc fuel) acc ending) (append_assoc (chunk_bytes chunk) (chunked chunks) rest)
    ∙ read_chunks-chunk fuel acc chunk (chunked chunks ++ rest) ending h.0
    ∙ read_chunks-chunked chunks fuel (acc ++ chunk) rest ending h.1 (omega arith)
    ∙ ap (λ t. gathered t rest) (append_assoc acc chunk (concat chunks))
