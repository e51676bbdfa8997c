-- ===== src/Lua/Dirent/Iteration.antt =====
-- src/lua/dirent.cpp: a directory that is read to its end by the iterator of `dirents`.
use dromozoa_unix.Prelude.{
  ℕ, zero, suc, ◌≡◌, ◌∙◌, refl, ap, none, some, List, [], ◌∷◌, ◌++◌, length, map,
}
use dromozoa_unix.Prelude.Int.{ℤ, pos}
use dromozoa_unix.Fd.{done, Machine}
use dromozoa_unix.Lua.{nil, text, integer, function, Answer, returned, fault, Session, at}
use dromozoa_unix.Lua.Dirent.{
  Entry, Calls, DirHandle, Method, new_dir, impl_dirents, impl_iterator, impl_gc, closedir,
  with_machine, no_errno,
}

-- What is seen of the system: the entries that a stream still has, and the streams that were closed.
pub record View (W : Type 0) : Type 0 where
  pub left : W → ℕ → List Entry
  pub closed : W → List ℕ

-- The documented behaviour of the calls on a stream that is read without an error.
pub record Reads {W : Type 0} (v : View W) (k : Calls W) (d : ℕ) : Type 0 where
  pub next_entry :
      (m : Machine W) (e : Entry) (es : List Entry)
      → v.left m.os d ≡ e ∷ es
      → (w : W) × (k.readdir d m ≡ (some e, record m { os = w }))
        × (v.left w d ≡ es)
        × (v.closed w ≡ v.closed m.os)
  pub no_entry : (m : Machine W) → v.left m.os d ≡ [] → k.readdir d m ≡ (none, m)
  pub closes :
      (w : W) → (w' : W) × (k.closedir (some d) w ≡ (done tt, w')) × (v.closed w' ≡ d ∷ v.closed w)

-- `n` calls of a method on one object: the answers in their order, the object and the session.
unfoldable pub calls :
    {W : Type 0} → Method W → ℕ → DirHandle → Session W → List Answer × DirHandle × Session W
calls f zero h s = ([], h, s)
calls f (suc n) h s =
    let r = f h s in let rest = calls f n r.1 r.2 in (r.0 ∷ rest.0, rest.1, rest.2)

calls-zero :
    {W : Type 0} (f : Method W) (h : DirHandle) (s : Session W) → calls f 0 h s ≡ ([], h, s)
unfolding calls
calls-zero f h s = refl

calls-suc :
    {W : Type 0} (f : Method W) (n : ℕ) (h : DirHandle) (s : Session W) {a : Answer}
    {h' h'' : DirHandle} {s' s'' : Session W} {as' : List Answer}
    → f h s ≡ (a, h', s')
    → calls f n h' s' ≡ (as', h'', s'')
    → calls f (suc n) h s ≡ (a ∷ as', h'', s'')
unfolding calls
calls-suc f n h s p q = rw p (rw q)

abbrev pub entry_answer : Entry → Answer
entry_answer e = returned (text e.d_name ∷ integer (pos e.d_ino) ∷ [])

module _ {W : Type 0} (strerror : ℤ → List ℕ) (k : Calls W) (v : View W) (d : ℕ)
    (reads : Reads v k d) where
  -- The last call, which closes the stream.
  iterator_end :
      (s : Session W)
      → v.left s.machine.os d ≡ []
      → (t : Session W) × (impl_iterator strerror k (some d) s ≡ (returned (nil ∷ []), none, t))
        × (v.closed t.machine.os ≡ d ∷ v.closed s.machine.os)
  unfolding impl_iterator closedir
  iterator_end s h =
      let (w, shut, log) = reads.closes s.machine.os in
      (
        with_machine s (record { os = w; errno = 0 }),
        rw (reads.no_entry (no_errno s) h) (rw shut),
        log,
      )

  -- The calls up to the end of the directory.
  calls-left :
      (es : List Entry) (s : Session W)
      → v.left s.machine.os d ≡ es
      → (t : Session W) × (calls (impl_iterator strerror k) (suc (length es)) (some d) s
          ≡ (map entry_answer es ++ (returned (nil ∷ []) ∷ []), none, t))
        × (v.closed t.machine.os ≡ d ∷ v.closed s.machine.os)
  calls-left [] s h =
      let (t, step, log) = iterator_end s h in
      (
        t,
        calls-suc (impl_iterator strerror k) 0 (some d) s step
            (calls-zero (impl_iterator strerror k) none t),
        log,
      )
  calls-left (e ∷ es) s h =
      let (w, step, rest, log) = reads.next_entry (no_errno s) e es h in
      let s' = with_machine s (record { os = w; errno = 0 }) in
      let (t, run, log') = calls-left es s' rest in
      let one : impl_iterator strerror k (some d) s ≡ (entry_answer e, some d, s') =
        unfold impl_iterator in (rw step) in
      (
        t,
        calls-suc (impl_iterator strerror k) (suc (length es)) (some d) s one run,
        log' ∙ ap (◌∷◌ d) log,
      )

  -- The iterator of `dirents`, where the system opens the directory and reads it without an error: as
  -- many calls as there are entries, and one more, give the entries, each with its name and number and
  -- in their order, and then nil. The last call closes the stream, which is closed just once, also by
  -- the collector that comes later. One more call of the iterator reads through a null pointer.
  pub dirents-entries :
      (path : List ℕ) (es : List Entry) (s : Session W) (w : W)
      → k.opendir path s.machine.os ≡ (done d, w)
      → v.left w d ≡ es
      → (t : Session W) × (impl_dirents strerror k (some path) s
          ≡ (returned (function "impl_iterator" ∷ new_dir d ∷ []), some d, at w s))
        × (calls (impl_iterator strerror k) (suc (length es)) (some d) (at w s)
            ≡ (map entry_answer es ++ (returned (nil ∷ []) ∷ []), none, t))
        × (v.closed t.machine.os ≡ d ∷ v.closed w)
        × (impl_gc strerror k none t ≡ t)
        × ((impl_iterator strerror k none t).0 ≡ fault)
  unfolding impl_dirents impl_gc impl_iterator
  dirents-entries path es s w opens has_entries =
      let (t, run, log) = calls-left es (at w s) has_entries in (t, rw opens, run, log, refl, refl)
