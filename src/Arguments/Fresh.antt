-- ===== src/Arguments/Fresh.antt =====
-- src/lib/argument_vector.cpp: what `get` gives after any calls.
use dromozoa_unix.Prelude.{
  ℕ, suc, ◌≡◌, refl, ap, subst, sym, ◌∙◌, ◌⊎◌, inl, inr, true, false, Option, none, some, List, [],
  ◌∷◌, ◌++◌, map, length, length-append, get_elem?, ◌==◌, arith,
}
use dromozoa_unix.Arguments.{
  Pointer, ArgumentVector, new, clear, push_back, pointers, fill, get, follow, Operation, op_clear,
  op_push_back, op_get, run,
}

-- The arguments that the calls have built up: none before the first `clear` or `push_back`.
abbrev pub appended : Option (List (List ℕ)) → List ℕ → List (List ℕ)
appended none x = x ∷ []
appended (some xs) x = xs ++ x ∷ []

abbrev pub built : List Operation → Option (List (List ℕ)) → Option (List (List ℕ))
built [] a = a
built (op_clear ∷ ops) a = built ops (some [])
built (op_push_back x ∷ ops) a = built ops (some (appended a x))
built (op_get ∷ ops) a = built ops a

-- The array as a program reads it: every string, then null.
abbrev pub listed : List (List ℕ) → List (Option (Option (List ℕ)))
listed [] = some none ∷ []
listed (x ∷ xs) = some (some x) ∷ listed xs

-- What the state stands for, and pointers that are all current.
abbrev pub Holds : Option (List (List ℕ)) → ArgumentVector → Type 0
Holds none s = (s.initialized ≡ false) × (s.str ≡ []) × (s.ptr ≡ [])
Holds (some xs) s =
    (s.initialized ≡ true) × (s.str ≡ xs) × ((s.ptr ≡ []) ⊎ (s.ptr ≡ pointers s.moved 0 s.str))

fill_current :
    (p : List (Option Pointer)) (m : ℕ) (str : List (List ℕ))
    → (p ≡ []) ⊎ (p ≡ pointers m 0 str)
    → fill p m str ≡ pointers m 0 str
fill_current [] m str h = refl
fill_current (x ∷ p) m str (inl h) = cc
fill_current (x ∷ p) m str (inr h) = h

pub push_back-Holds :
    (a : Option (List (List ℕ))) (x : List ℕ) (s : ArgumentVector)
    → Holds a s
    → Holds (some (appended a x)) (push_back x s)
unfolding push_back
push_back-Holds none x s h = (refl, ap (λ l. l ++ x ∷ []) h.1, inl refl)
push_back-Holds (some xs) x s h = (refl, ap (λ l. l ++ x ∷ []) h.1, inl refl)

get-Holds : (a : Option (List (List ℕ))) (s : ArgumentVector) → Holds a s → Holds a (get s).1
unfolding get
get-Holds none s h = rw h.0 (refl, h.1, h.2)
get-Holds (some xs) s h = rw h.0 (refl, h.1, inr (fill_current s.ptr s.moved s.str h.2))

run-Holds :
    (ops : List Operation) (a : Option (List (List ℕ))) (s : ArgumentVector)
    → Holds a s
    → Holds (built ops a) (run ops s)
unfolding run clear
run-Holds [] a s h = h
run-Holds (op_clear ∷ ops) a s h = run-Holds ops (some []) (clear s) (refl, refl, inl refl)
run-Holds (op_push_back x ∷ ops) a s h =
    run-Holds ops (some (appended a x)) (push_back x s) (push_back-Holds a x s h)
run-Holds (op_get ∷ ops) a s h = run-Holds ops a (get s).1 (get-Holds a s h)

get_elem?_at :
    (pre : List (List ℕ)) (x : List ℕ) (post : List (List ℕ))
    → get_elem? (pre ++ x ∷ post) (length pre) ≡ some x
get_elem?_at [] x post = refl
get_elem?_at (y ∷ pre) x post = get_elem?_at pre x post

same_number : (n : ℕ) → (n == n) ≡ true
same_number n = ground arith

append_one :
    (pre : List (List ℕ)) (x : List ℕ) (post : List (List ℕ))
    → (pre ++ x ∷ []) ++ post ≡ pre ++ x ∷ post
append_one [] x post = refl
append_one (y ∷ pre) x post = ap (◌∷◌ y) (append_one pre x post)

follow-pointers :
    (s : ArgumentVector) (pre post : List (List ℕ))
    → s.str ≡ pre ++ post
    → map (follow s) (pointers s.moved (length pre) post) ≡ listed post
follow-pointers s pre [] h = refl
follow-pointers s pre (x ∷ post) h =
    let e : get_elem? s.str (length pre) ≡ some x =
      ap (λ l. get_elem? l (length pre)) h ∙ get_elem?_at pre x post in
    let len : length (pre ++ x ∷ []) ≡ suc (length pre) =
      omega (arith, length-append pre (x ∷ [])) in
    let rest = follow-pointers s (pre ++ x ∷ []) post (h ∙ sym (append_one pre x post)) in
    rw (same_number s.moved, e)
      (ap (◌∷◌ (some (some x)))
        (subst (λ n. map (follow s) (pointers s.moved n post) ≡ listed post) len rest))

-- What `get` gives for the arguments: a null pointer, or an array that is read as they are.
abbrev pub Gives : Option (List (List ℕ)) → Option (List (Option Pointer)) × ArgumentVector → Type 0
Gives none (array, s) = array ≡ none
Gives (some xs) (array, s) =
    (ps : List (Option Pointer)) × (array ≡ some ps) × (map (follow s) ps ≡ listed xs)

pub get-Gives : (a : Option (List (List ℕ))) (s : ArgumentVector) → Holds a s → Gives a (get s)
unfolding get
get-Gives none s h = rw h.0 refl
get-Gives (some xs) s h =
    let t = record s { initialized = true; ptr = fill s.ptr s.moved s.str } in
    rw h.0 (
      pointers s.moved 0 s.str,
      ap some (fill_current s.ptr s.moved s.str h.2),
      follow-pointers t [] s.str refl ∙ ap listed h.1,
    )

-- After any calls, `get` gives a null pointer if there was neither a `clear` nor a `push_back`, and else
-- an array whose pointers are all current and give the strings pushed since the last `clear`, in their
-- order, and then null.
pub get-built : (ops : List Operation) → Gives (built ops none) (get (run ops new))
get-built ops = get-Gives (built ops none) (run ops new) (run-Holds ops none new (refl, refl, refl))
