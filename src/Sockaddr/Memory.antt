-- ===== src/Sockaddr/Memory.antt =====
-- `memcpy` and `memmove` of src/lib/socket_address.cpp and src/lua/sockaddr.cpp on objects that are lists
-- of bytes.
use dromozoa_unix.Prelude.{
  ℕ, zero, suc, ◌+◌, ◌≤◌, ◌≡◌, refl, ap, ◌∙◌, sym, Option, none, some, List, [], ◌∷◌, ◌++◌, length,
  take, drop, leb, if◌then◌else◌, length-append, length-drop, take-append, arith, le→leb,
  length-take, replicate, length-replicate,
}

abbrev pub zeros : ℕ → List ℕ
zeros n = replicate n 0

pub length-zeros : (n : ℕ) → length (zeros n) ≡ n
length-zeros n = length-replicate {A = ℕ} n 0

-- A part of an object, and an object with a part replaced.
abbrev pub slice : ℕ → ℕ → List ℕ → List ℕ
slice at n mem = take n (drop at mem)

abbrev pub splice : ℕ → List ℕ → List ℕ → List ℕ
splice at bytes mem = take at mem ++ (bytes ++ drop (length bytes) (drop at mem))

unfoldable pub read : ℕ → ℕ → List ℕ → Option (List ℕ)
read at n mem = if leb (at + n) (length mem) then some (slice at n mem) else none

unfoldable pub write : ℕ → List ℕ → List ℕ → Option (List ℕ)
write at bytes mem =
    if leb (at + length bytes) (length mem) then some (splice at bytes mem) else none

pub read_inside :
    (at n : ℕ) (mem : List ℕ) → at + n ≤ length mem → read at n mem ≡ some (slice at n mem)
unfolding read
read_inside at n mem h = rw (le→leb (at + n) (length mem) h) refl

pub write_inside :
    (at : ℕ) (bytes mem : List ℕ)
    → at + length bytes ≤ length mem
    → write at bytes mem ≡ some (splice at bytes mem)
unfolding write
write_inside at bytes mem h = rw (le→leb (at + length bytes) (length mem) h) refl

pub length-splice :
    (at : ℕ) (bytes mem : List ℕ)
    → at + length bytes ≤ length mem
    → length (splice at bytes mem) ≡ length mem
length-splice at bytes mem h =
    let rest = drop (length bytes) (drop at mem) in
    omega (
      arith,
      length-append (take at mem) (bytes ++ rest),
      length-append bytes rest,
      length-take at mem (omega arith),
      length-drop (length bytes) (drop at mem),
      length-drop at mem,
    )

-- What is written can be read.
pub slice-splice :
    (at : ℕ) (bytes mem : List ℕ)
    → at ≤ length mem
    → slice at (length bytes) (splice at bytes mem) ≡ bytes
slice-splice zero bytes mem h = take-append bytes (drop (length bytes) mem)
slice-splice (suc at) bytes [] h = ground arith
slice-splice (suc at) bytes (x ∷ mem) h = slice-splice at bytes mem (omega arith)

-- What lies before the part that is written, or behind it, is as it was.
take-splice :
    (n at : ℕ) (bytes mem : List ℕ)
    → n ≤ at
    → at ≤ length mem
    → take n (splice at bytes mem) ≡ take n mem
take-splice zero at bytes mem h g = refl
take-splice (suc n) zero bytes mem h g = ground arith
take-splice (suc n) (suc at) bytes [] h g = ground arith
take-splice (suc n) (suc at) bytes (x ∷ mem) h g =
    ap (◌∷◌ x) (take-splice n at bytes mem (omega arith) (omega arith))

pub slice_before :
    (from n at : ℕ) (bytes mem : List ℕ)
    → from + n ≤ at
    → at ≤ length mem
    → slice from n (splice at bytes mem) ≡ slice from n mem
slice_before zero n at bytes mem h g = take-splice n at bytes mem (omega arith) g
slice_before (suc from) n zero bytes mem h g = ground arith
slice_before (suc from) n (suc at) bytes [] h g = ground arith
slice_before (suc from) n (suc at) bytes (x ∷ mem) h g =
    slice_before from n at bytes mem (omega arith) (omega arith)

pub drop_nil : (n : ℕ) → drop {A = ℕ} n [] ≡ []
drop_nil zero = refl
drop_nil (suc n) = refl

drop_past :
    (bytes : List ℕ) (from : ℕ) (mem : List ℕ)
    → length bytes ≤ from
    → drop from (bytes ++ drop (length bytes) mem) ≡ drop from mem
drop_past [] from mem h = refl
drop_past (b ∷ bytes) zero mem h = ground arith
drop_past (b ∷ bytes) (suc from) [] h =
    ap (λ xs. drop from (bytes ++ xs)) (sym (drop_nil (length bytes)))
    ∙ drop_past bytes from [] (omega arith)
    ∙ drop_nil from
drop_past (b ∷ bytes) (suc from) (x ∷ mem) h = drop_past bytes from mem (omega arith)

drop-splice :
    (at from : ℕ) (bytes mem : List ℕ)
    → at + length bytes ≤ from
    → at ≤ length mem
    → drop from (splice at bytes mem) ≡ drop from mem
drop-splice zero from bytes mem h g = drop_past bytes from mem (omega arith)
drop-splice (suc at) zero bytes mem h g = ground arith
drop-splice (suc at) (suc from) bytes [] h g = ground arith
drop-splice (suc at) (suc from) bytes (x ∷ mem) h g =
    drop-splice at from bytes mem (omega arith) (omega arith)

pub slice_behind :
    (at from n : ℕ) (bytes mem : List ℕ)
    → at + length bytes ≤ from
    → at ≤ length mem
    → slice from n (splice at bytes mem) ≡ slice from n mem
slice_behind at from n bytes mem h g = ap (take n) (drop-splice at from bytes mem h g)

-- Bytes behind the part that is read do not matter.
take_within : (n : ℕ) (xs ys : List ℕ) → n ≤ length xs → take n (xs ++ ys) ≡ take n xs
take_within zero xs ys h = refl
take_within (suc n) [] ys h = ground arith
take_within (suc n) (x ∷ xs) ys h = ap (◌∷◌ x) (take_within n xs ys (omega arith))

pub slice_within :
    (at n : ℕ) (xs ys : List ℕ) → at + n ≤ length xs → slice at n (xs ++ ys) ≡ slice at n xs
slice_within zero n xs ys h = take_within n xs ys (omega arith)
slice_within (suc at) n [] ys h = ground arith
slice_within (suc at) n (x ∷ xs) ys h = slice_within at n xs ys (omega arith)
