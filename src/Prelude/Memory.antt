-- ===== src/Prelude/Memory.antt =====
-- Bytes that are written at a place: `memcpy` into an array, `write` into a file at an offset.
use Prim.Native.Nat.{ℕ, zero, suc, ◌+◌, ◌-◌, ◌≤◌, ◌<◌, max}
use mathlib.Core.Path.{◌≡◌, refl, ap, ap₂}
use mathlib.Core.List.{List, [], ◌∷◌, ◌++◌, append-nil}
use native.Mathlib.Omega.{arith}
use native.Mathlib.Nat.{suc-add}
use fmtp_ldm.Prelude.Tests.{ltb, leb, if◌then◌else◌}
use fmtp_ldm.Prelude.Lists.{length, take, drop}

-- A write past the end fills the gap with zeros, as in a file; a write of no bytes does nothing. An
-- array is only written inside its bounds.
unfoldable pub write_at : ℕ → List ℕ → List ℕ → List ℕ
write_at zero [] old = old
write_at zero (b ∷ bs) [] = b ∷ write_at zero bs []
write_at zero (b ∷ bs) (x ∷ old) = b ∷ write_at zero bs old
write_at (suc p) [] old = old
write_at (suc p) (b ∷ bs) [] = 0 ∷ write_at p (b ∷ bs) []
write_at (suc p) (b ∷ bs) (x ∷ old) = x ∷ write_at p (b ∷ bs) old

-- The byte at a place, 0 past the end.
abbrev pub byte_at : List ℕ → ℕ → ℕ
byte_at [] i = 0
byte_at (x ∷ xs) zero = x
byte_at (x ∷ xs) (suc i) = byte_at xs i

-- `n` bytes from `a` on.
abbrev pub slice : ℕ → ℕ → List ℕ → List ℕ
slice a n xs = take n (drop a xs)

pub write_at-nil : (p : ℕ) (old : List ℕ) → write_at p [] old ≡ old
unfolding write_at
write_at-nil zero old = refl
write_at-nil (suc p) old = refl

pub length-write_at :
    (p : ℕ) (bs old : List ℕ)
    → 0 < length bs
    → length (write_at p bs old) ≡ max (length old) (p + length bs)
unfolding write_at
length-write_at p [] old h = absurd (omega arith)
length-write_at zero (b ∷ []) [] h = omega arith
length-write_at zero (b ∷ []) (x ∷ old) h = omega arith
length-write_at zero (b ∷ c ∷ bs) [] h = omega (arith, length-write_at zero (c ∷ bs) [])
length-write_at zero (b ∷ c ∷ bs) (x ∷ old) h = omega (arith, length-write_at zero (c ∷ bs) old)
length-write_at (suc p) (b ∷ bs) [] h = omega (arith, length-write_at p (b ∷ bs) [])
length-write_at (suc p) (b ∷ bs) (x ∷ old) h = omega (arith, length-write_at p (b ∷ bs) old)

-- Inside an array its length stays.
pub length-write_at_inside :
    (p : ℕ) (bs old : List ℕ) → p + length bs ≤ length old → length (write_at p bs old) ≡ length old
length-write_at_inside p [] old h = rw write_at-nil refl
length-write_at_inside p (b ∷ bs) old h = omega (arith, length-write_at p (b ∷ bs) old)

-- What a write leaves at each place.
pub byte_at-write_at :
    (p : ℕ) (bs old : List ℕ) (i : ℕ)
    → byte_at (write_at p bs old) i ≡ (
        if leb p i
        then (if ltb i (p + length bs) then byte_at bs (i - p) else byte_at old i)
        else byte_at old i)
unfolding write_at
byte_at-write_at zero [] old i = ground arith
byte_at-write_at zero (b ∷ bs) [] zero = ground arith
byte_at-write_at zero (b ∷ bs) [] (suc i) = ground (arith, byte_at-write_at zero bs [] i)
byte_at-write_at zero (b ∷ bs) (x ∷ old) zero = ground arith
byte_at-write_at zero (b ∷ bs) (x ∷ old) (suc i) = ground (arith, byte_at-write_at zero bs old i)
byte_at-write_at (suc p) [] old i = ground arith
byte_at-write_at (suc p) (b ∷ bs) [] zero = ground arith
byte_at-write_at (suc p) (b ∷ bs) [] (suc i) = ground (arith, byte_at-write_at p (b ∷ bs) [] i)
byte_at-write_at (suc p) (b ∷ bs) (x ∷ old) zero = ground arith
byte_at-write_at (suc p) (b ∷ bs) (x ∷ old) (suc i) =
    ground (arith, byte_at-write_at p (b ∷ bs) old i)

-- What stands before the write is not changed by it.
pub slice-write_at_before :
    (a n p : ℕ) (bs old : List ℕ)
    → a + n ≤ p
    → p + length bs ≤ length old
    → slice a n (write_at p bs old) ≡ slice a n old
unfolding write_at
slice-write_at_before a n p [] old h k = rw write_at-nil refl
slice-write_at_before zero zero p (b ∷ bs) old h k = refl
slice-write_at_before zero (suc n) zero (b ∷ bs) old h k = absurd (omega arith)
slice-write_at_before a n p (b ∷ bs) [] h k = absurd (omega arith)
slice-write_at_before zero (suc n) (suc p) (b ∷ bs) (x ∷ old) h k =
    ap (◌∷◌ x) (slice-write_at_before zero n p (b ∷ bs) old (omega arith) (omega arith))
slice-write_at_before (suc a) n zero (b ∷ bs) (x ∷ old) h k = absurd (omega arith)
slice-write_at_before (suc a) n (suc p) (b ∷ bs) (x ∷ old) h k =
    slice-write_at_before a n p (b ∷ bs) old (omega arith) (omega arith)

-- What is written joins what stands before it.
pub slice-write_at :
    (a n p m : ℕ) (bs old : List ℕ)
    → a + n ≡ p
    → n + length bs ≡ m
    → p + length bs ≤ length old
    → slice a m (write_at p bs old) ≡ slice a n old ++ bs
unfolding write_at
slice-write_at a n p m [] old e f k =
    let g : m ≡ n = omega arith in rw (write_at-nil, append-nil, g) refl
slice-write_at a n p m (b ∷ bs) [] e f k = absurd (omega arith)
slice-write_at a n p zero (b ∷ bs) old e f k = absurd (omega arith)
slice-write_at zero zero zero (suc m) (b ∷ bs) (x ∷ old) e f k =
    ap (◌∷◌ b) (slice-write_at zero zero zero m bs old refl (omega arith) (omega arith))
slice-write_at zero zero (suc p) (suc m) (b ∷ bs) (x ∷ old) e f k = absurd (omega arith)
slice-write_at zero (suc n) zero (suc m) (b ∷ bs) (x ∷ old) e f k = absurd (omega arith)
slice-write_at zero (suc n) (suc p) (suc m) (b ∷ bs) (x ∷ old) e f k =
    ap (◌∷◌ x) (slice-write_at zero n p m (b ∷ bs) old (omega arith) (omega arith) (omega arith))
slice-write_at (suc a) n zero (suc m) (b ∷ bs) (x ∷ old) e f k = absurd (omega arith)
slice-write_at (suc a) n (suc p) (suc m) (b ∷ bs) (x ∷ old) e f k =
    slice-write_at a n p (suc m) (b ∷ bs) old (omega arith) (omega arith) (omega arith)

-- Lists of one length that agree at every place are equal.
pub byte_at_ext :
    (xs ys : List ℕ)
    → length xs ≡ length ys
    → ((i : ℕ) → i < length xs → byte_at xs i ≡ byte_at ys i)
    → xs ≡ ys
byte_at_ext [] [] e h = refl
byte_at_ext [] (y ∷ ys) e h = absurd (omega arith)
byte_at_ext (x ∷ xs) [] e h = absurd (omega arith)
byte_at_ext (x ∷ xs) (y ∷ ys) e h =
    ap₂ ◌∷◌ (h 0 (omega arith)) (byte_at_ext xs ys (omega arith) (λ i l. h (suc i) (omega arith)))

pub byte_at-take :
    (n i : ℕ) (xs : List ℕ) → byte_at (take n xs) i ≡ (if ltb i n then byte_at xs i else 0)
byte_at-take zero i xs = ground arith
byte_at-take (suc n) i [] = ground arith
byte_at-take (suc n) zero (x ∷ xs) = ground arith
byte_at-take (suc n) (suc i) (x ∷ xs) = ground (arith, byte_at-take n i xs)

pub byte_at-drop : (n i : ℕ) (xs : List ℕ) → byte_at (drop n xs) i ≡ byte_at xs (n + i)
byte_at-drop zero i xs = ap (byte_at xs) (omega arith)
byte_at-drop (suc n) i [] = refl
byte_at-drop (suc n) i (x ∷ xs) = rw suc-add (byte_at-drop n i xs)
