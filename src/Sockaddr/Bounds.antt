-- ===== src/Sockaddr/Bounds.antt =====
-- src/lua/sockaddr.cpp: what `path` reads of an address that a system call has filled.
use dromozoa_unix.Prelude.{
  ℕ, zero, suc, ◌+◌, ◌-◌, ◌≤◌, ◌<◌, ◌≡◌, refl, false, Option, some, ◌>>=◌, List, [], ◌∷◌, length,
  take, drop, length-take, length-drop, ltb, ◌==◌, arith, Bool-cases, inl, inr, ◌⊎◌,
}
use dromozoa_unix.Sockaddr.Memory.{read_inside}
use dromozoa_unix.Sockaddr.{
  Layout, SocketAddress, bytes, nil, family, first, end_of, path_string, path_bound, impl_path,
}
use dromozoa_unix.Sockaddr.Inet.{IsLayout}

-- A number is found, and it is at least `low` and at most `high`.
abbrev Between : ℕ → ℕ → Option ℕ → Type 0
Between low high r = (m : ℕ) × (r ≡ some m) × (low ≤ m) × (m ≤ high)

first-Between :
    (path : List ℕ) (arg : ℕ) → 0 < arg → arg ≤ length path → Between 0 arg (first path arg)
unfolding first
first-Between [] arg h g = ground arith
first-Between (c ∷ []) arg h g =
    let one : ltb 1 arg ≡ false = ground arith in (0, rw one refl, omega arith, omega arith)
first-Between (c ∷ d ∷ path) arg h g = elim (Bool-cases (ltb 1 arg)) [
  | inl x ↦ elim (Bool-cases (c == 0)) [
    | inl y ↦ elim (Bool-cases (d == 0)) [
      | inl z ↦ (0, rw (x, y, z, ◌>>=◌) refl, omega arith, omega arith)
      | inr z ↦ (1, rw (x, y, z, ◌>>=◌) refl, omega arith, omega arith)
    ]
    | inr y ↦ (0, rw (x, y, ◌>>=◌) refl, omega arith, omega arith)
  ]
  | inr x ↦ (0, rw x refl, omega arith, omega arith)
]

end_of-Between :
    (n : ℕ) (rest : List ℕ) (i : ℕ) → n ≤ length rest → Between i (i + n) (end_of n rest i)
unfolding end_of
end_of-Between zero rest i h = (i, refl, omega arith, omega arith)
end_of-Between (suc n) [] i h = ground arith
end_of-Between (suc n) (c ∷ rest) i h = elim (Bool-cases (c == 0)) [
  | inl z ↦ (i, rw (z, ◌>>=◌) refl, omega arith, omega arith)
  | inr z ↦
      let (m, e, low, high) = end_of-Between n rest (suc i) (omega arith) in
      (m, rw (z, e, ◌>>=◌) refl, omega arith, omega arith)
]

path_string-fits :
    (path : List ℕ) (arg : ℕ)
    → 0 < arg
    → arg ≤ length path
    → (string : List ℕ) × (path_string path arg ≡ some string) × (length string ≤ arg)
unfolding path_string
path_string-fits path arg h g =
    let (i, e, low, high) = first-Between path arg h g in
    let (m, f, from, to) =
      end_of-Between (arg - i) (drop i path) i (omega (arith, length-drop i path)) in
    (
      take m path,
      rw (e, ◌>>=◌, f) (read_inside 0 m path (omega arith)),
      omega (arith, length-take m path (omega arith)),
    )

-- Of an address whose size lies between the offset of the path and the size of its storage, `path`
-- gives nil, or a string that lies within the address. Nothing is read outside the storage.
impl_path-inside :
    (l : Layout)
    → IsLayout l
    → (a : SocketAddress) → length a.address ≡ l.storage_size
    → l.sun_path ≤ a.size
    → a.size ≤ l.storage_size
    → (impl_path l a ≡ some nil)
      ⊎ ((string : List ℕ) × (impl_path l a ≡ some (bytes string))
          × (l.sun_path + length string ≤ a.size))
unfolding impl_path
impl_path-inside l h a e low high = elim (Bool-cases (family l a == l.af_unix)) [
  | inr other ↦ inl (rw other refl)
  | inl same ↦
      let bound : path_bound l a ≡ a.size - l.sun_path = omega (arith, h.storage_small) in
      elim (Bool-cases (ltb 0 (path_bound l a))) [
        | inr none_left ↦ inr ([], rw (same, none_left) refl, omega arith)
        | inl more ↦
            let (string, f, fits) =
              path_string-fits (drop l.sun_path a.address) (path_bound l a) (ground arith)
                (omega (arith, bound, length-drop l.sun_path a.address)) in
            inr (string, rw (same, more, f, ◌>>=◌) refl, omega (arith, bound))
      ]
]
