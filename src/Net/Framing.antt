-- ===== src/Net/Framing.antt =====
-- readData of src/KafkaEndpointMP.h reads a frame of a given size, in however many pieces.
use libasynckafkaclient.Prelude.{
  ℕ, zero, suc, ◌+◌, ◌-◌, ◌≤◌, ◌<◌, ◌≡◌, refl, true, false, List, [], ◌∷◌, ◌++◌, arith, Bool-cases,
  inl, inr, length, length-append, append_assoc, append-nil, ◌==◌, ==_iff,
}
use libasynckafkaclient.Os.{Os, World, tock, tocks, ReadAnswer, bytes, read_failed}
use libasynckafkaclient.Net.{
  ReadData, complete, end_of_stream, failed, starved, read_piece, read_loop, read_data,
}

-- What read() promises: it never gives more than it was asked for.
abbrev pub ReadFits : Os → Type 0
ReadFits os = (t n : ℕ) (got : List ℕ) → os.read t n ≡ bytes got → length got ≤ n

-- The bytes that a completed read put into the buffer number n.
abbrev pub Filled : ℕ → ReadData → Type 0
Filled n (complete buf) = length buf ≡ n
Filled n end_of_stream = Unit {0}
Filled n (failed e) = Unit {0}
Filled n starved = ⊥

read_piece-Filled :
    (n : ℕ) (a : ReadAnswer) (next : List ℕ → ReadData × World) (w : World)
    → ((got : List ℕ) → a ≡ bytes got → 0 < length got → Filled n (next got).0)
    → Filled n (read_piece a next w).0
unfolding read_piece
read_piece-Filled n (read_failed e) next w h = tt
read_piece-Filled n (bytes []) next w h = tt
read_piece-Filled n (bytes (b ∷ bs)) next w h = h (b ∷ bs) refl (omega arith)

read_loop-Filled :
    (os : Os)
    → ReadFits os
    → (fuel size rb left : ℕ) (buf : List ℕ) (w : World) → rb + left ≡ size
    → length buf ≡ rb
    → left < fuel
    → Filled size (read_loop os fuel size rb left buf w).0
unfolding read_loop
read_loop-Filled os fits zero size rb left buf w e l h = absurd (omega arith)
read_loop-Filled os fits (suc fuel) size rb left buf w e l h = elim (Bool-cases (rb == size)) [
  | inl done ↦ rw (done, read_loop) (omega (arith, (==_iff rb size).0 done))
  | inr more ↦
      rw (more, read_loop)
        (read_piece-Filled size (os.read w.tick left) _ w λ got q some_got.
          let fit = fits w.tick left got q in
          read_loop-Filled os fits fuel size (rb + length got) (left - length got) (buf ++ got)
            (tock w) (omega arith) (omega (arith, length-append buf got)) (omega arith))
]

-- If read() never gives more than it was asked for, readData ends within its fuel for every size,
-- and a completed read has filled exactly that many bytes.
pub read_data-Filled :
    (os : Os) (size : ℕ) (w : World) → ReadFits os → Filled size (read_data os size w).0
unfolding read_data
read_data-Filled os size w fits =
    read_loop-Filled os fits (suc size) size 0 size [] w (omega arith) (omega arith) (omega arith)

-- The socket delivers the pieces one read() after the other, from call number t on.
abbrev pub Delivers : Os → ℕ → List (List ℕ) → Type 0
Delivers os t [] = Unit {0}
Delivers os t (p ∷ ps) =
    ((n : ℕ) → length p ≤ n → os.read t n ≡ bytes p) × (0 < length p) × Delivers os (suc t) ps

abbrev pub joined : List (List ℕ) → List ℕ
joined [] = []
joined (p ∷ ps) = p ++ joined ps

read_piece-next :
    (got : List ℕ) (next : List ℕ → ReadData × World) (w : World)
    → 0 < length got
    → read_piece (bytes got) next w ≡ next got
unfolding read_piece
read_piece-next [] next w h = absurd (omega arith)
read_piece-next (b ∷ bs) next w h = refl

read_loop-Delivers :
    (os : Os) (ps : List (List ℕ)) (fuel size rb left : ℕ) (buf : List ℕ) (w : World)
    → rb + left ≡ size
    → left ≡ length (joined ps)
    → left < fuel
    → Delivers os w.tick ps
    → read_loop os fuel size rb left buf w ≡ (complete (buf ++ joined ps), tocks (length ps) w)
unfolding read_loop
read_loop-Delivers os [] zero size rb left buf w e l h d = absurd (omega arith)
read_loop-Delivers os (p ∷ ps) zero size rb left buf w e l h d = absurd (omega arith)
read_loop-Delivers os [] (suc fuel) size rb left buf w e l h d =
    let done : (rb == size) ≡ true = (==_iff rb size).1 (omega arith) in
    rw (done, read_loop, append-nil) refl
read_loop-Delivers os (p ∷ ps) (suc fuel) size rb left buf w e l h d =
    let total = length-append p (joined ps) in
    let pos_p = d.1 in
    let answer = d.0 left (omega arith) in
    let more : (rb == size) ≡ false = ground arith in
    rw (more, read_loop, answer, read_piece-next p _ w d.1, ← append_assoc)
      (read_loop-Delivers os ps fuel size (rb + length p) (left - length p) (buf ++ p) (tock w)
        (omega arith) (omega arith) (omega arith) d.2)

-- If the socket delivers the pieces of a frame, none of them empty, readData of the frame's size
-- gives the pieces joined in their order, after one read() for each piece.
pub read_data-Delivers :
    (os : Os) (ps : List (List ℕ)) (w : World)
    → Delivers os w.tick ps
    → read_data os (length (joined ps)) w ≡ (complete (joined ps), tocks (length ps) w)
unfolding read_data
read_data-Delivers os ps w d =
    read_loop-Delivers os ps (suc (length (joined ps))) (length (joined ps)) 0 (length (joined ps))
      [] w (omega arith) refl (omega arith) d
