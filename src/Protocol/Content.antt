-- ===== src/Protocol/Content.antt =====
-- Which bytes of a file a receiver has, and what writing a piece of the file to its place adds.
use fmtp_ldm.Prelude.{
  ℕ, ◌+◌, ◌-◌, ◌≤◌, ◌<◌, ◌≡◌, refl, ◌∙◌, ◌⊎◌, inl, inr, true, false, List, [], ◌∷◌, ◌++◌, drop,
  length, length-take, length-drop, ltb, leb, lt-cases, arith,
}
use fmtp_ldm.Prelude.Memory.{
  write_at, byte_at, slice, write_at-nil, length-write_at, byte_at-write_at, byte_at_ext,
  byte_at-take, byte_at-drop,
}
use fmtp_ldm.Protocol.{RetransRequest}

-- The byte at `i` is there, and is that of the file.
abbrev pub Has : List ℕ → List ℕ → ℕ → Type 0
Has content file i = (i < length content) × (byte_at content i ≡ byte_at file i)

-- A request of the list asks for byte `i` of the file.
abbrev pub Asked : List RetransRequest → ℕ → Type 0
Asked [] i = ⊥
Asked (q ∷ qs) i = ((q.seq_num ≤ i) × (i < q.seq_num + q.data_len)) ⊎ Asked qs i

pub Asked-append_left : (xs ys : List RetransRequest) (i : ℕ) → Asked xs i → Asked (xs ++ ys) i
Asked-append_left [] ys i h = elim h [ ]
Asked-append_left (q ∷ xs) ys i (inl h) = inl h
Asked-append_left (q ∷ xs) ys i (inr h) = inr (Asked-append_left xs ys i h)

pub Asked-append_right : (xs ys : List RetransRequest) (i : ℕ) → Asked ys i → Asked (xs ++ ys) i
Asked-append_right [] ys i h = h
Asked-append_right (q ∷ xs) ys i h = inr (Asked-append_right xs ys i h)

pub length-slice : (p n : ℕ) (file : List ℕ) → p + n ≤ length file → length (slice p n file) ≡ n
length-slice p n file h = omega (arith, length-take n (drop p file), length-drop p file)

byte_at-slice :
    (p n i : ℕ) (file : List ℕ)
    → p ≤ i
    → i < p + n
    → byte_at (slice p n file) (i - p) ≡ byte_at file i
byte_at-slice p n i file h k =
    let t : ltb (i - p) n ≡ true = ground arith in
    let e : p + (i - p) ≡ i = omega arith in
    byte_at-take n (i - p) (drop p file) ∙ rw (t, byte_at-drop p (i - p) file, e) refl

module _ (content file : List ℕ) (p n : ℕ) (inside : p + n ≤ length file) where
  -- A piece that is written to its place is there.
  pub write_at-Has_piece :
      (i : ℕ) → p ≤ i → i < p + n → Has (write_at p (slice p n file) content) file i
  write_at-Has_piece i h k =
      let len = length-slice p n file inside in
      let t : leb p i ≡ true = ground arith in
      let u : ltb i (p + length (slice p n file)) ≡ true = ground (arith, len) in
      (
        omega (arith, len, length-write_at p (slice p n file) content (omega (arith, len))),
        byte_at-write_at p (slice p n file) content i ∙ rw (t, u) (byte_at-slice p n i file h k),
      )

  longer : length content ≤ length (write_at p (slice p n file) content)
  longer = elim (lt-cases 0 (length (slice p n file))) [
    | inl (t, l) ↦ omega (arith, length-write_at p (slice p n file) content l)
    | inr (t, l) ↦
        let len = length-slice p n file inside in
        let z : n ≡ 0 = omega arith in rw (z, write_at-nil) (omega arith)
  ]

  -- What was there stays.
  pub write_at-Has : (i : ℕ) → Has content file i → Has (write_at p (slice p n file) content) file i
  write_at-Has i (l, e) = elim (lt-cases i p) [
    | inl (t, b) ↦
        let f : leb p i ≡ false = ground arith in
        (omega (arith, longer), byte_at-write_at p (slice p n file) content i ∙ rw f e)
    | inr (t, b) ↦ elim (lt-cases i (p + n)) [
      | inl (u, c) ↦ write_at-Has_piece i b c
      | inr (u, c) ↦
          let f : leb p i ≡ true = ground arith in
          let len = length-slice p n file inside in
          let g : ltb i (p + length (slice p n file)) ≡ false = ground (arith, len) in
          (omega (arith, longer), byte_at-write_at p (slice p n file) content i ∙ rw (f, g) e)
    ]
  ]

  -- Nothing is written past the end of the file.
  pub length-write_at_piece :
      length content ≤ length file → length (write_at p (slice p n file) content) ≤ length file
  length-write_at_piece h = elim (lt-cases 0 (length (slice p n file))) [
    | inl (t, l) ↦
        omega (arith, length-slice p n file inside, length-write_at p (slice p n file) content l)
    | inr (t, l) ↦
        let len = length-slice p n file inside in
        let z : n ≡ 0 = omega arith in rw (z, write_at-nil) h
  ]

-- All bytes make the file.
pub Has-eq :
    (content file : List ℕ)
    → length content ≤ length file
    → ((i : ℕ) → i < length file → Has content file i)
    → content ≡ file
Has-eq [] [] h all = refl
Has-eq content [] h all = byte_at_ext content [] (omega arith) (λ i l. absurd (omega arith))
Has-eq content (x ∷ xs) h all =
    let full = (all (length xs) (omega arith)).0 in
    byte_at_ext content (x ∷ xs) (omega (arith, full)) (λ i l. (all i (omega arith)).1)
