-- ===== src/Ops/Data/Buffer.antt =====
-- sotfs-ops/src/lib.rs: what writing and resizing do to the bytes of a file.
use sotfs.Base.{
  ℕ, zero, suc, ◌+◌, ◌-◌, ◌≤◌, ◌<◌, ◌^◌, true, min, Option, none, some, [], ◌∷◌, ◌++◌, ◌≡◌, refl,
  arith, ltb, length, take, drop, replicate, if◌then◌else◌, length-append, ap, ◌∙◌,
}
use sotfs.Types.{Bytes}
use sotfs.Error.{ok}
use sotfs.Ops.Data.{resize, extend, copy_in, overwrite, slice, read_slice}

-- The byte at a position, if the buffer reaches it.
unfoldable pub byte_at : ℕ → Bytes → Option ℕ
byte_at i [] = none
byte_at zero (b ∷ bs) = some b
byte_at (suc i) (b ∷ bs) = byte_at i bs

byte_at-append :
    (i : ℕ) (xs ys : Bytes)
    → byte_at i (xs ++ ys)
      ≡ (if ltb i (length xs) then byte_at i xs else byte_at (i - length xs) ys)
unfolding byte_at
byte_at-append i [] ys = ground arith
byte_at-append zero (x ∷ xs) ys = ground arith
byte_at-append (suc i) (x ∷ xs) ys = ground (arith, byte_at-append i xs ys)

byte_at-take :
    (i n : ℕ) (xs : Bytes) → byte_at i (take n xs) ≡ (if ltb i n then byte_at i xs else none)
unfolding byte_at
byte_at-take i zero xs = ground arith
byte_at-take i (suc n) [] = ground arith
byte_at-take zero (suc n) (x ∷ xs) = ground arith
byte_at-take (suc i) (suc n) (x ∷ xs) = ground (arith, byte_at-take i n xs)

byte_at-drop : (i n : ℕ) (xs : Bytes) → byte_at i (drop n xs) ≡ byte_at (n + i) xs
unfolding byte_at
byte_at-drop i zero xs = ground arith
byte_at-drop i (suc n) [] = ground arith
byte_at-drop i (suc n) (x ∷ xs) = ground (arith, byte_at-drop i n xs)

byte_at-replicate : (i n : ℕ) → byte_at i (replicate n 0) ≡ (if ltb i n then some 0 else none)
unfolding byte_at
byte_at-replicate i zero = ground arith
byte_at-replicate zero (suc n) = ground arith
byte_at-replicate (suc i) (suc n) = ground (arith, byte_at-replicate i n)

byte_at-end : (i : ℕ) (xs : Bytes) → length xs ≤ i → byte_at i xs ≡ none
unfolding byte_at
byte_at-end i [] h = refl
byte_at-end zero (x ∷ xs) h = absurd (omega (arith, h))
byte_at-end (suc i) (x ∷ xs) h = byte_at-end i xs (omega (arith, h))

length-take : (n : ℕ) (xs : Bytes) → n ≤ length xs → length (take n xs) ≡ n
length-take zero xs h = refl
length-take (suc n) [] h = absurd (omega (arith, h))
length-take (suc n) (x ∷ xs) h = omega (arith, length-take n xs (omega (arith, h)))

length-drop : (n : ℕ) (xs : Bytes) → length (drop n xs) ≡ length xs - n
length-drop zero xs = omega arith
length-drop (suc n) [] = omega arith
length-drop (suc n) (x ∷ xs) = omega (arith, length-drop n xs)

abbrev zeros : ℕ → Bytes
zeros n = replicate n 0

length-replicate : (n : ℕ) → length (zeros n) ≡ n
length-replicate zero = refl
length-replicate (suc n) = omega (arith, length-replicate n)

pub length-resize : (n : ℕ) (xs : Bytes) → length (resize n xs) ≡ n
unfolding resize
length-resize n xs = ground (
  arith,
  length-take n xs,
  length-append xs (replicate (n - length xs) 0),
  length-replicate (n - length xs),
)

-- A resized buffer has the old bytes up to the new length, and zeros where it has grown.
pub byte_at-resize :
    (i n : ℕ) (xs : Bytes)
    → byte_at i (resize n xs)
      ≡ (if ltb i n then (if ltb i (length xs) then byte_at i xs else some 0) else none)
unfolding resize
byte_at-resize i n xs = ground (
  arith,
  byte_at-take i n xs,
  byte_at-append i xs (replicate (n - length xs) 0),
  byte_at-replicate (i - length xs) (n - length xs),
)

drop-append : (n : ℕ) (xs ys : Bytes) → length xs ≡ n → drop n (xs ++ ys) ≡ ys
drop-append zero [] ys h = refl
drop-append zero (x ∷ xs) ys h = absurd (omega (arith, h))
drop-append (suc n) [] ys h = absurd (omega (arith, h))
drop-append (suc n) (x ∷ xs) ys h = drop-append n xs ys (omega (arith, h))

take-append : (xs ys : Bytes) → take (length xs) (xs ++ ys) ≡ xs
take-append [] ys = refl
take-append (x ∷ xs) ys = ap (λ zs. x ∷ zs) (take-append xs ys)

length-extend : (n : ℕ) (xs : Bytes) → n ≤ length (extend n xs)
unfolding extend
length-extend n xs = ground (arith, length-resize n xs)

byte_at-extend :
    (i n : ℕ) (xs : Bytes)
    → byte_at i (extend n xs)
      ≡ (if ltb i (length xs) then byte_at i xs else if ltb i n then some 0 else none)
unfolding extend
byte_at-extend i n xs = ground (arith, byte_at-resize i n xs, byte_at-end i xs)

module _ (offset : ℕ) (bytes xs : Bytes) (long : offset + length bytes ≤ length xs) where
  byte_at-copy_in :
      (i : ℕ)
      → byte_at i (copy_in offset bytes xs) ≡ (
          if ltb i offset
          then byte_at i xs
          else if ltb i (offset + length bytes)
          then byte_at (i - offset) bytes
          else byte_at i xs)
  unfolding copy_in
  byte_at-copy_in i =
      let end = offset + length bytes in
      let back = drop end xs in
      ground (
        arith,
        byte_at-append i (take offset xs) (bytes ++ back),
        byte_at-append (i - offset) bytes back,
        byte_at-drop (i - offset - length bytes) end xs,
        byte_at-take i offset xs,
        length-take offset xs,
        long,
      )

  slice-copy_in : slice offset (offset + length bytes) (copy_in offset bytes xs) ≡ bytes
  unfolding slice copy_in
  slice-copy_in =
      let size : offset + length bytes - offset ≡ length bytes = omega arith in
      rw size (
        let back = drop (offset + length bytes) xs in
        ap (take (length bytes)) (
          drop-append offset (take offset xs) (bytes ++ back)
            (length-take offset xs (omega (arith, long))))
        ∙ take-append bytes back)

module _ (offset : ℕ) (bytes buf : Bytes) where
  -- The buffer after a write, byte by byte: the data in its range, what was there outside it, and
  -- zeros between the old end and the offset.
  pub byte_at-overwrite :
      (i : ℕ)
      → byte_at i (overwrite offset bytes buf) ≡ (
          if ltb i offset
          then (if ltb i (length buf) then byte_at i buf else some 0)
          else if ltb i (offset + length bytes)
          then byte_at (i - offset) bytes
          else byte_at i buf)
  unfolding overwrite
  byte_at-overwrite i =
      let end = offset + length bytes in
      ground (
        arith,
        byte_at-copy_in offset bytes (extend end buf) (length-extend end buf) i,
        byte_at-extend i end buf,
        byte_at-end i buf,
      )

  -- Reading back the range that was written gives the data.
  pub slice-overwrite : slice offset (offset + length bytes) (overwrite offset bytes buf) ≡ bytes
  unfolding overwrite
  slice-overwrite =
      slice-copy_in offset bytes (extend (offset + length bytes) buf)
        (length-extend (offset + length bytes) buf)

  length-copy_in :
      (xs : Bytes)
      → offset + length bytes ≤ length xs
      → length (copy_in offset bytes xs) ≡ length xs
  unfolding copy_in
  length-copy_in xs long =
      let back = drop (offset + length bytes) xs in
      omega (
        arith,
        length-append (take offset xs) (bytes ++ back),
        length-append bytes back,
        length-take offset xs (omega arith),
        length-drop (offset + length bytes) xs,
      )

  pub reaches-overwrite : offset + length bytes ≤ length (overwrite offset bytes buf)
  unfolding overwrite
  reaches-overwrite =
      let long = length-extend (offset + length bytes) buf in
      omega (arith, length-copy_in (extend (offset + length bytes) buf) long)

  pub read_slice-overwrite :
      offset + length bytes < 2 ^ 64
      → read_slice offset (length bytes) (overwrite offset bytes buf) ≡ ok bytes
  unfolding read_slice
  read_slice-overwrite fits =
      let whole = overwrite offset bytes buf in
      let start : min offset (length whole) ≡ offset = omega (arith, reaches-overwrite) in
      let sum : ltb (offset + length bytes) (2 ^ 64) ≡ true = ground (arith, fits) in
      let end : min (offset + length bytes) (length whole) ≡ offset + length bytes =
        omega (arith, reaches-overwrite) in
      rw start (rw (sum, end) (ap ok slice-overwrite))
