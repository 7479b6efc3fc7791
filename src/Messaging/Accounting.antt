-- ===== src/Messaging/Accounting.antt =====
-- How many bytes the chunk loop of src/bolt/messaging/request.go takes, and which messages
-- survive the framing.
use native.Mathlib.Decide.{dec_lt}
use gopher_cypher.Common.{
  ◌∙◌, true, false, Bool, sym, false, Bool, ◌==◌, ap, ℕ, zero, suc, ◌+◌, ◌<◌, ◌≤◌, ◌≡◌, ◌≢◌, ◌↔◌,
  ◌⊎◌, inl, inr, refl, arith, List, [], ◌∷◌, ◌++◌, length, length-append, ◌%◌, append_assoc,
  append-nil, take, drop,
}
use native.Mathlib.Nat.{mod-eq_of_lt}
use mathlib.Core.Path.{subst}
use gopher_cypher.Common.Int.{put_uint16, big_endian}
use gopher_cypher.Messaging.Connection.{
  Ending, Filled, read_full, full, eof, unexpected_eof, timeout,
}
use gopher_cypher.Messaging.Request.{
  after_size, after_chunk, after_header, read_chunks, gathered, gather_failed, out_of_fuel,
  Gathered,
}
use gopher_cypher.Messaging.Framing.{
  read_chunks-end, read_chunks-chunk, chunked, IsChunk, chunk_bytes, read_chunks-chunked,
}

-- Either the end marker came first, or a chunk of at least one byte was read before it.
abbrev pub Accounted : ℕ → List ℕ → Gathered → Type 0
Accounted n acc (gathered out rest) =
    ((out ≡ acc) × (n ≡ length rest + 2)) ⊎ (length out + length rest + 4 ≤ length acc + n)
Accounted n acc (gather_failed e) = Unit
Accounted n acc out_of_fuel = ⊥

-- What io.ReadFull takes.
abbrev Takes : ℕ → ℕ → Filled → Type 0
Takes n m (full bs rest) = (length bs ≡ n) × (m ≡ n + length rest)
Takes n m _ = Unit

length-take-drop :
    (n : ℕ) (xs : List ℕ)
    → n ≤ length xs
    → (length (take n xs) ≡ n) × (length xs ≡ n + length (drop n xs))
length-take-drop zero xs h = omega arith
length-take-drop (suc n) [] h = absurd (omega arith)
length-take-drop (suc n) (x ∷ xs) h = omega (arith, length-take-drop n xs (omega arith))

read_full-Takes :
    (n : ℕ) (input : List ℕ) (ending : Ending) → Takes n (length input) (read_full n input ending)
unfolding read_full
read_full-Takes n input ending = ground (arith, length-take-drop n input)

Accounted-step :
    (n m k : ℕ) (acc chunk : List ℕ) (r : Gathered)
    → 0 < k
    → length chunk ≡ k
    → n ≡ 2 + k + m
    → Accounted m (acc ++ chunk) r
    → Accounted n acc r
Accounted-step n m k acc chunk (gathered out rest) h c e (inl (p, q)) =
    inr (omega (arith, ap length p, length-append acc chunk))
Accounted-step n m k acc chunk (gathered out rest) h c e (inr p) =
    inr (omega (arith, length-append acc chunk))
Accounted-step n m k acc chunk (gather_failed e') h c e p = tt
Accounted-step n m k acc chunk out_of_fuel h c e p = absurd p

after_chunk-Accounted :
    (next : List ℕ → List ℕ → Gathered) (k m : ℕ) (acc : List ℕ) (r : Filled)
    → 0 < k
    → Takes k m r
    → ((chunk rest : List ℕ)
        → length rest < m
        → Accounted (length rest) (acc ++ chunk) (next chunk rest))
    → Accounted (m + 2) acc (after_chunk next r)
unfolding after_chunk
after_chunk-Accounted next k m acc (full chunk rest) h t f =
    Accounted-step (m + 2) (length rest) k acc chunk (next chunk rest) h t.0 (omega arith)
      (f chunk rest (omega arith))
after_chunk-Accounted next k m acc eof h t f = tt
after_chunk-Accounted next k m acc unexpected_eof h t f = tt
after_chunk-Accounted next k m acc timeout h t f = tt

after_size-Accounted :
    (t : Bool) (next : ℕ → List ℕ → Gathered) (m : ℕ) (acc : List ℕ) (size : ℕ) (rest : List ℕ)
    → m ≡ length rest + 2
    → (t ≡ false → Accounted (length rest + 2) acc (next size rest))
    → Accounted m acc (after_size t next acc size rest)
unfolding after_size
after_size-Accounted true next m acc size rest e f = inl (refl, e)
after_size-Accounted false next m acc size rest e f =
    subst (λ n. Accounted n acc (next size rest)) (sym e) (f refl)

after_header-Accounted :
    (next : ℕ → List ℕ → Gathered) (m : ℕ) (acc : List ℕ) (r : Filled)
    → Takes 2 m r
    → ((k : ℕ) (rest : List ℕ)
        → 0 < k
        → length rest < m
        → Accounted (length rest + 2) acc (next k rest))
    → Accounted m acc (after_header next acc r)
unfolding after_header
after_header-Accounted next m acc (full size_bytes rest) t f =
    let k = big_endian 0 size_bytes in
    after_size-Accounted (k == 0) next m acc k rest (omega arith)
      (λ e. f k rest (ground arith) (omega arith))
after_header-Accounted next m acc eof t f = tt
after_header-Accounted next m acc unexpected_eof t f = tt
after_header-Accounted next m acc timeout t f = tt

pub read_chunks-Accounted :
    (fuel : ℕ) (acc input : List ℕ) (ending : Ending)
    → length input < fuel
    → Accounted (length input) acc (read_chunks fuel acc ending input)
unfolding read_chunks
read_chunks-Accounted zero acc input ending h = absurd (omega arith)
read_chunks-Accounted (suc fuel) acc input ending h =
    after_header-Accounted _ (length input) acc (read_full 2 input ending)
      (read_full-Takes 2 input ending)
      λ k rest p q.
        after_chunk-Accounted _ k (length rest) acc (read_full k rest ending) p
          (read_full-Takes k rest ending)
          λ chunk rest' r. read_chunks-Accounted fuel (acc ++ chunk) rest' ending (omega arith)

-- The three writes of a message, as the peer reads them.
abbrev pub frame : List ℕ → List ℕ
frame bs = put_uint16 (length bs % 65536) ++ (bs ++ (0x00 ∷ 0x00 ∷ []))

frame-chunked : (bs : List ℕ) → length bs < 65536 → frame bs ≡ chunked (bs ∷ [])
frame-chunked bs h = rw (mod-eq_of_lt h)

Accounted-too_short :
    (chunk later rest : List ℕ) (r : Gathered)
    → 0 < length later
    → Accounted (length later + length rest + 2) chunk r
    → r ≢ gathered (chunk ++ later) rest
Accounted-too_short chunk later rest r h a e =
    elim (subst (Accounted (length later + length rest + 2) chunk) e a) [
      | inl (p, q) ↦ omega (arith, ap length p, length-append chunk later)
      | inr p ↦ omega (arith, length-append chunk later)
    ]

-- A first chunk that is shorter than the message: the peer cannot gather the message.
read_chunks-too_short :
    (chunk later rest : List ℕ) (fuel : ℕ) (ending : Ending)
    → IsChunk chunk
    → 0 < length later
    → length chunk + length later + length rest + 4 < fuel
    → read_chunks fuel [] ending (chunk_bytes chunk ++ (later ++ (0x00 ∷ 0x00 ∷ rest)))
      ≢ gathered (chunk ++ later) rest
read_chunks-too_short chunk later rest zero ending h l b e = absurd (omega arith)
read_chunks-too_short chunk later rest (suc fuel) ending h l b e =
    let input = later ++ (0x00 ∷ 0x00 ∷ rest) in
    let n : length input ≡ length later + length rest + 2 =
      omega (arith, length-append later (0x00 ∷ 0x00 ∷ rest)) in
    Accounted-too_short chunk later rest (read_chunks fuel chunk ending input) l
      (subst (λ m. Accounted m chunk (read_chunks fuel chunk ending input)) n
        (read_chunks-Accounted fuel chunk input ending (omega arith)))
      (sym (read_chunks-chunk fuel [] chunk input ending h) ∙ e)

take-append-drop : (n : ℕ) (xs : List ℕ) → take n xs ++ drop n xs ≡ xs
take-append-drop zero xs = refl
take-append-drop (suc n) [] = refl
take-append-drop (suc n) (x ∷ xs) = ap (λ t. x ∷ t) (take-append-drop n xs)

-- A long message as its first chunk and the bytes behind it.
frame-split :
    (bs rest : List ℕ)
    → let m = length bs % 65536 in
      frame bs ++ rest ≡ put_uint16 m ++ (take m bs ++ (drop m bs ++ (0x00 ∷ 0x00 ∷ rest)))
frame-split bs rest =
    let m = length bs % 65536 in
    ap (λ t. put_uint16 m ++ t)
      (append_assoc bs (0x00 ∷ 0x00 ∷ []) rest
        ∙ ap (λ t. t ++ (0x00 ∷ 0x00 ∷ rest)) (sym (take-append-drop m bs))
        ∙ append_assoc (take m bs) (drop m bs) (0x00 ∷ 0x00 ∷ rest))

empty-ne : (bs more rest : List ℕ) → 0 < length bs → gathered [] more ≢ gathered bs rest
empty-ne [] more rest h e = absurd (omega arith)
empty-ne (b ∷ bs) more rest h e = cc

rest-ne : (more rest : List ℕ) → length rest < length more → gathered [] more ≢ gathered [] rest
rest-ne more rest h e = ground arith

length-frame : (bs rest : List ℕ) → length (frame bs ++ rest) ≡ length bs + length rest + 4
length-frame bs rest =
    omega
      (arith, length-append (bs ++ (0x00 ∷ 0x00 ∷ [])) rest, length-append bs (0x00 ∷ 0x00 ∷ []))

read_chunks-ne-frame :
    (bs rest : List ℕ) (fuel : ℕ) (ending : Ending)
    → 65536 ≤ length bs
    → length bs + length rest + 4 < fuel
    → read_chunks fuel [] ending (frame bs ++ rest) ≢ gathered bs rest
read_chunks-ne-frame bs rest zero ending h b e = absurd (omega arith)
read_chunks-ne-frame bs rest (suc fuel) ending h b e = elim (dec_lt 0 (length bs % 65536)) [
  | yes p ↦
      let m = length bs % 65536 in
      let chunk = take m bs in
      let later = drop m bs in
      let d = length-take-drop m bs (omega arith) in
      read_chunks-too_short chunk later rest (suc fuel) ending (omega (arith, d)) (omega (arith, d))
        (omega (arith, d))
        (ap (read_chunks (suc fuel) [] ending) (
            ap (λ k. put_uint16 k ++ (chunk ++ (later ++ (0x00 ∷ 0x00 ∷ rest)))) d.0
            ∙ sym (frame-split bs rest))
          ∙ e
          ∙ ap (λ t. gathered t rest) (sym (take-append-drop m bs)))
  | no p ↦
      let none : length bs % 65536 ≡ 0 = omega arith in
      let tail = (bs ++ (0x00 ∷ 0x00 ∷ [])) ++ rest in
      empty-ne bs tail rest (omega arith) (
        sym (read_chunks-end fuel [] tail ending)
        ∙ ap (λ k. read_chunks (suc fuel) [] ending (put_uint16 k ++ tail)) (sym none)
        ∙ e)
]

frame-IsChunk :
    (bs rest : List ℕ) (fuel : ℕ) (ending : Ending)
    → length (frame bs ++ rest) < fuel
    → read_chunks fuel [] ending (frame bs ++ rest) ≡ gathered bs rest
    → IsChunk bs
frame-IsChunk bs rest zero ending b e = absurd (omega arith)
frame-IsChunk [] rest (suc fuel) ending b e = absurd (
    rest-ne (0x00 ∷ 0x00 ∷ rest) rest (omega arith)
      (sym (read_chunks-end fuel [] (0x00 ∷ 0x00 ∷ rest) ending) ∙ e))
frame-IsChunk (c ∷ bs) rest (suc fuel) ending b e = elim (dec_lt (length (c ∷ bs)) 65536) [
  | yes p ↦ (omega arith, p)
  | no p ↦ absurd (
      read_chunks-ne-frame (c ∷ bs) rest (suc fuel) ending (omega arith)
        (omega (arith, length-frame (c ∷ bs) rest)) e)
]

-- With fuel for each byte of the input, the peer gathers exactly the message that was framed and
-- leaves what follows it, exactly if the message has 1 to 65535 bytes.
pub read_chunks-frame_iff :
    (bs rest : List ℕ) (fuel : ℕ) (ending : Ending)
    → length (frame bs ++ rest) < fuel
    → (read_chunks fuel [] ending (frame bs ++ rest) ≡ gathered bs rest) ↔ IsChunk bs
read_chunks-frame_iff bs rest fuel ending b = (
  frame-IsChunk bs rest fuel ending b,
  λ h.
      ap (λ t. read_chunks fuel [] ending (t ++ rest)) (frame-chunked bs h.1)
      ∙ read_chunks-chunked (bs ∷ []) fuel [] rest ending (h, tt)
          (omega (arith, length-frame bs rest))
      ∙ ap (λ t. gathered t rest) (append-nil bs),
)
