-- ===== src/Sockaddr/Path.antt =====
-- src/lua/sockaddr.cpp: what is read from the addresses of `AF_UNIX` that it makes.
use dromozoa_unix.Prelude.{
  ℕ, zero, suc, ◌+◌, ◌-◌, ◌≤◌, ◌<◌, ◌≡◌, refl, ap, sym, ◌∙◌, true, not, ◌&&◌, some, ◌>>=◌, List, [],
  ◌∷◌, ◌++◌, length, take, drop, ltb, ◌==◌, if◌then◌else◌, arith, Bool-cases, inl, inr,
  length-append,
}
use dromozoa_unix.Pathexec.{c_string}
use dromozoa_unix.Sockaddr.Memory.{
  zeros, slice, splice, read, read_inside, write_inside, length-splice, slice-splice, slice_before,
  drop_nil,
}
use dromozoa_unix.Sockaddr.{
  Layout, SocketAddress, made, bytes, family, impl_sockaddr_un, first, end_of, path_string,
  path_bound, impl_path,
}
use dromozoa_unix.Sockaddr.Inet.{IsLayout, new_sockaddr-Copies, length-set_zeros, get_copied}

-- The part of a path that an address gives back: up to its first NUL, or to its second one where it
-- begins with a NUL and goes on.
unfoldable pub visible : List ℕ → List ℕ
visible [] = []
visible (c ∷ []) = c_string (c ∷ [])
visible (c ∷ d ∷ rest) =
    if c == 0 && not (d == 0) then c ∷ c_string (d ∷ rest) else c_string (c ∷ d ∷ rest)

end_of_lem :
    (n : ℕ) (xs rest : List ℕ) (i : ℕ)
    → length xs < n
    → end_of n (xs ++ (0 ∷ rest)) i ≡ some (i + length (c_string xs))
unfolding end_of
end_of_lem zero xs rest i h = ground arith
end_of_lem (suc n) [] rest i h = ap some (omega arith)
end_of_lem (suc n) (c ∷ xs) rest i h = elim (Bool-cases (c == 0)) [
  | inl z ↦ rw (z, ◌>>=◌) (ap some (omega arith))
  | inr z ↦ rw (z, end_of_lem n xs rest (suc i) (omega arith), ◌>>=◌) (ap some (omega arith))
]

length-c_string : (xs : List ℕ) → length (c_string xs) ≤ length xs
length-c_string [] = omega arith
length-c_string (c ∷ xs) = ground (arith, length-c_string xs)

take-c_string : (xs ys : List ℕ) → take (length (c_string xs)) (xs ++ ys) ≡ c_string xs
take-c_string [] ys = refl
take-c_string (c ∷ xs) ys = elim (Bool-cases (c == 0)) [
  | inl z ↦ rw z refl
  | inr z ↦ rw z (ap (◌∷◌ c) (take-c_string xs ys))
]

take_string : (n : ℕ) (xs ys : List ℕ) → n ≡ length (c_string xs) → take n (xs ++ ys) ≡ c_string xs
take_string n xs ys e = ap (λ n. take n (xs ++ ys)) e ∙ take-c_string xs ys

one_more : (n : ℕ) → 1 + n ≡ suc n
one_more n = omega arith

module _ (path rest : List ℕ) (n : ℕ) (g : length path < n) where
  -- The loop from the first byte, and what is read then.
  from_first :
      (end_of n (path ++ (0 ∷ rest)) 0 >>= λ i. read 0 i (path ++ (0 ∷ rest)))
      ≡ some (c_string path)
  from_first =
      rw (end_of_lem n path rest 0 g, ◌>>=◌)
        (read_inside 0 (0 + length (c_string path)) (path ++ (0 ∷ rest))
            (omega (arith, length-c_string path, length-append path (0 ∷ rest)))
          ∙ ap some (take_string (0 + length (c_string path)) path (0 ∷ rest) (omega arith)))

  -- And from the second one.
  from_second :
      (c : ℕ)
      → (end_of n (path ++ (0 ∷ rest)) 1 >>= λ i. read 0 i (c ∷ (path ++ (0 ∷ rest))))
        ≡ some (c ∷ c_string path)
  from_second c =
      rw (end_of_lem n path rest 1 g, ◌>>=◌)
        (read_inside 0 (1 + length (c_string path)) (c ∷ (path ++ (0 ∷ rest)))
            (omega (arith, length-c_string path, length-append path (0 ∷ rest)))
          ∙ ap some (
              ap (λ n. take n (c ∷ (path ++ (0 ∷ rest)))) (one_more (length (c_string path)))
              ∙ ap (◌∷◌ c) (take-c_string path (0 ∷ rest))))

  plain_string :
      (arg : ℕ)
      → arg - 0 ≡ n
      → first (path ++ (0 ∷ rest)) arg ≡ some 0
      → path_string (path ++ (0 ∷ rest)) arg ≡ some (c_string path)
  unfolding path_string
  plain_string arg e f = rw (f, ◌>>=◌, e) from_first

path_string_lem :
    (path rest : List ℕ) (arg : ℕ)
    → 0 < length path
    → length path < arg
    → path_string (path ++ (0 ∷ rest)) arg ≡ some (visible path)
unfolding path_string visible first
path_string_lem [] rest arg h g = ground arith
path_string_lem (c ∷ []) rest arg h g =
    let more : ltb 1 arg ≡ true = ground arith in
    plain_string (c ∷ []) rest (arg - 0) (omega arith) arg refl (elim (Bool-cases (c == 0)) [
      | inl z ↦ rw (more, z, ◌>>=◌) refl
      | inr z ↦ rw (more, z, ◌>>=◌) refl
    ])
path_string_lem (c ∷ d ∷ path) rest arg h g =
    let more : ltb 1 arg ≡ true = ground arith in
    let plain = plain_string (c ∷ d ∷ path) rest (arg - 0) (omega arith) arg refl in
    elim (Bool-cases (c == 0)) [
      | inl z ↦ elim (Bool-cases (d == 0)) [
        | inl y ↦ plain (rw (more, z, y, ◌>>=◌) refl) ∙ ap some (rw (z, y) refl)
        | inr y ↦
            rw (more, z, y, ◌>>=◌)
              (from_second (d ∷ path) rest (arg - 1) (omega arith) c ∙ ap some (rw y refl))
      ]
      | inr z ↦ plain (rw (more, z, ◌>>=◌) refl) ∙ ap some (rw z refl)
    ]

split_at : (n : ℕ) (xs : List ℕ) → xs ≡ take n xs ++ drop n xs
split_at zero xs = refl
split_at (suc n) [] = refl
split_at (suc n) (x ∷ xs) = ap (◌∷◌ x) (split_at n xs)

drop-drop : (p k : ℕ) (xs : List ℕ) (n : ℕ) → n ≡ p + k → drop k (drop p xs) ≡ drop n xs
drop-drop zero k xs n e = ap (λ m. drop m xs) (omega arith)
drop-drop (suc p) zero [] n e = sym (drop_nil n)
drop-drop (suc p) (suc k) [] n e = sym (drop_nil n)
drop-drop (suc p) k (x ∷ xs) zero e = ground arith
drop-drop (suc p) k (x ∷ xs) (suc n) e = drop-drop p k xs n (omega arith)

-- Two parts that follow each other.
adjacent :
    (p : ℕ) (xs ys mem : List ℕ)
    → slice p (length xs) mem ≡ xs
    → slice (p + length xs) (length ys) mem ≡ ys
    → drop p mem ≡ xs ++ (ys ++ drop (length ys) (drop (p + length xs) mem))
adjacent p xs ys mem e f =
    let behind = drop (p + length xs) mem in
    split_at (length xs) (drop p mem)
    ∙ ap (λ t. t ++ drop (length xs) (drop p mem)) e
    ∙ ap (◌++◌ xs) (
        drop-drop p (length xs) mem (p + length xs) refl
        ∙ split_at (length ys) behind
        ∙ ap (λ t. t ++ drop (length ys) behind) f)

module _ (l : Layout) (h : IsLayout l) where
  path_bound_lem :
      (a : SocketAddress)
      → a.size ≡ l.sockaddr_un_size
      → path_bound l a ≡ l.sockaddr_un_size - l.sun_path
  path_bound_lem a e = omega (arith, h.path_inside, h.un_stored, h.storage_small)

  -- The structure of a path: its bytes, and the NUL that ends them.
  stored :
      (path : List ℕ)
      → length path < l.sun_path_size
      → (a : SocketAddress) × (rest : List ℕ) × (impl_sockaddr_un l path ≡ some (made a))
        × (family l a ≡ l.af_unix)
        × (a.size ≡ l.sockaddr_un_size)
        × (drop l.sun_path a.address ≡ path ++ (0 ∷ rest))
  unfolding impl_sockaddr_un
  stored path g =
      let size = l.sockaddr_un_size in
      let p = l.sun_path in
      let m0 = l.set_family l.af_unix (zeros size) in
      let m1 = splice p path m0 in
      let m2 = splice (p + length path) (0 ∷ []) m1 in
      let inside = h.path_inside in
      let behind = h.path_behind in
      let fits : ltb (length path) l.sun_path_size ≡ true = ground arith in
      let e0 : length m0 ≡ size = length-set_zeros l h l.af_unix size (omega arith) in
      let e1 : length m1 ≡ size = length-splice p path m0 (omega arith) ∙ e0 in
      let e2 : length m2 ≡ size = length-splice (p + length path) (0 ∷ []) m1 (omega arith) ∙ e1 in
      let (a, e, s, long, same) = new_sockaddr-Copies l m2 size e2 h.un_stored in
      (
        a,
        drop 1 (drop (p + length path) a.address),
        rw
            (
              fits,
              write_inside p path m0 (omega arith),
              ◌>>=◌,
              write_inside (p + length path) (0 ∷ []) m1 (omega arith),
            )
            e,
        get_copied l h l.af_unix size m2 a h.unix_small (omega arith)
            (slice_before 0 h.header (p + length path) (0 ∷ []) m1 (omega arith) (omega arith)
              ∙ slice_before 0 h.header p path m0 (omega arith) (omega arith))
            (same 0 h.header (omega arith)),
        s,
        adjacent p path (0 ∷ []) a.address
            (same p (length path) (omega arith)
              ∙ slice_before p (length path) (p + length path) (0 ∷ []) m1 (omega arith)
                  (omega arith)
              ∙ slice-splice p path m0 (omega arith))
            (same (p + length path) 1 (omega arith)
              ∙ slice-splice (p + length path) (0 ∷ []) m1 (omega arith)),
      )

  -- A path that is not empty and shorter than the field makes an address of `AF_UNIX`, of the size of
  -- its structure, and `path` gives it back up to its first NUL; a path that begins with one NUL byte
  -- comes back with this byte, up to the next NUL. Nothing is read or written outside an object.
  pub impl_path-visible :
      (path : List ℕ)
      → 0 < length path
      → length path < l.sun_path_size
      → (a : SocketAddress) × (impl_sockaddr_un l path ≡ some (made a))
        × (family l a ≡ l.af_unix)
        × (a.size ≡ l.sockaddr_un_size)
        × (impl_path l a ≡ some (bytes (visible path)))
  unfolding impl_path
  impl_path-visible path some_byte g =
      let (a, rest, e, f, s, t) = stored path g in
      let room : length path < path_bound l a = omega (arith, path_bound_lem a s, h.path_inside) in
      let same : (l.af_unix == l.af_unix) ≡ true = ground arith in
      let more : ltb 0 (path_bound l a) ≡ true = ground arith in
      (
        a,
        e,
        f,
        s,
        rw (f, same, more, t, path_string_lem path rest (path_bound l a) some_byte room, ◌>>=◌)
            refl,
      )
