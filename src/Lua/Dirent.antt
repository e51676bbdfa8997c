-- ===== src/Lua/Dirent.antt =====
-- src/lua/dirent.cpp: directories. A stream is named by its address, the null pointer is `none`; a call
-- that reads through a null pointer is a fault, but for `closedir`, which is left to the system.
pub mod Iteration
use dromozoa_unix.Prelude.{
  ℕ, zero, suc, Bool, true, false, Option, none, some, List, [], ◌∷◌, ◌==◌, if◌then◌else◌,
}
use dromozoa_unix.Prelude.Int.{ℤ, pos}
use dromozoa_unix.Fd.{Reply, done, failed, Machine, Result, call, settle}
use dromozoa_unix.Lua.{
  name, Value, nil, success, integer, text, table, end, field, function, object, Answer, returned,
  thrown, fault, Session, Run, checked, push_error,
}

pub record Entry : Type 0 where
  pub d_name : List ℕ
  pub d_ino : ℕ

-- `readdir` sets `errno` where it fails, and leaves it alone at the end.
pub record Calls (W : Type 0) : Type 0 where
  pub opendir : List ℕ → W → Reply ℕ × W
  pub readdir : ℕ → Machine W → Option Entry × Machine W
  pub closedir : Option ℕ → W → Reply Unit × W
  pub rewinddir : ℕ → W → W
  pub seekdir : ℕ → ℤ → W → W
  pub telldir : ℕ → W → ℤ × W
  pub unexpected : ℕ → Machine W → Machine W

-- The object of Lua: the field `handle_` of `dir_handle`.
abbrev pub DirHandle : Type 0
DirHandle = Option ℕ

abbrev pub Method : Type 0 → Type 0
Method W = DirHandle → Session W → Answer × DirHandle × Session W

abbrev pub with_machine : {W : Type 0} → Session W → Machine W → Session W
with_machine s m = record s { machine = m }

abbrev pub no_errno : {W : Type 0} → Session W → Machine W
no_errno s = record s.machine { errno = 0 }

abbrev pub new_dir : ℕ → Value
new_dir d = object "dromozoa.unix.dir" (pos d)

module _ {W : Type 0} (strerror : ℤ → List ℕ) (k : Calls W) where
  abbrev pub keeping : DirHandle → Answer × Session W → Answer × DirHandle × Session W
  keeping h (a, s) = (a, h, s)

  -- `dir_handle::closedir`: the handle is gone, failure or not.
  unfoldable pub closedir : DirHandle → Machine W → Result W Unit × DirHandle
  closedir h m = (call (k.closedir h) m, none)

  -- `dir_handle::~dir_handle`, which `impl_gc` calls.
  unfoldable pub impl_gc : DirHandle → Session W → Session W
  unfolding closedir
  impl_gc none s = s
  impl_gc (some d) s =
      with_machine s (settle k.unexpected s.machine.errno (closedir (some d) s.machine).0)

  abbrev pub after_closedir : Session W → Result W Unit × DirHandle → Answer × DirHandle × Session W
  after_closedir s ((some u, m), h) = (returned (success ∷ []), h, with_machine s m)
  after_closedir s ((none, m), h) = keeping h (push_error strerror (with_machine s m))

  unfoldable pub impl_closedir : Method W
  unfolding closedir
  impl_closedir h s = after_closedir s (closedir h s.machine)

  abbrev pub after_readdir :
      ℕ → Session W → Option Entry × Machine W → Answer × DirHandle × Session W
  after_readdir d s (some e, m) = (
    returned (
        table
          (field (name "d_name") (text e.d_name) (field (name "d_ino") (integer (pos e.d_ino)) end))
        ∷ []),
    some d,
    with_machine s m,
  )
  after_readdir d s (none, m) =
      if m.errno == 0
      then (returned (nil ∷ []), some d, with_machine s m)
      else keeping (some d) (push_error strerror (with_machine s m))

  unfoldable pub impl_readdir : Method W
  impl_readdir none s = (fault, none, with_machine s (no_errno s))
  impl_readdir (some d) s = after_readdir d s (k.readdir d (no_errno s))

  unfoldable pub impl_rewinddir : Method W
  impl_rewinddir none s = (fault, none, s)
  impl_rewinddir (some d) s = (
    returned (success ∷ []),
    some d,
    with_machine s (record s.machine { os = k.rewinddir d s.machine.os }),
  )

  unfoldable pub impl_seekdir : Option ℤ → Method W
  impl_seekdir none h s = (thrown, h, s)
  impl_seekdir (some offset) none s = (fault, none, s)
  impl_seekdir (some offset) (some d) s = (
    returned (success ∷ []),
    some d,
    with_machine s (record s.machine { os = k.seekdir d offset s.machine.os }),
  )

  unfoldable pub impl_telldir : Method W
  impl_telldir none s = (fault, none, s)
  impl_telldir (some d) s =
      let r = k.telldir d s.machine.os in
      (returned (integer r.0 ∷ []), some d, with_machine s (record s.machine { os = r.1 }))

  -- The handle is that of the new object, where one is made.
  abbrev pub after_opendir : Session W → Result W ℕ → Answer × DirHandle × Session W
  after_opendir s (some d, m) = (returned (new_dir d ∷ []), some d, with_machine s m)
  after_opendir s (none, m) = keeping none (push_error strerror (with_machine s m))

  unfoldable pub impl_opendir : Option (List ℕ) → Session W → Answer × DirHandle × Session W
  impl_opendir none s = (thrown, none, s)
  impl_opendir (some dirname) s = after_opendir s (call (k.opendir dirname) s.machine)

  abbrev pub at_end : Session W → Result W Unit × DirHandle → Answer × DirHandle × Session W
  at_end s ((some u, m), h) = (returned (nil ∷ []), h, with_machine s m)
  at_end s ((none, m), h) = (thrown, h, with_machine s m)

  abbrev pub after_next : ℕ → Session W → Option Entry × Machine W → Answer × DirHandle × Session W
  unfolding closedir
  after_next d s (some e, m) =
      (returned (text e.d_name ∷ integer (pos e.d_ino) ∷ []), some d, with_machine s m)
  after_next d s (none, m) =
      if m.errno == 0 then at_end s (closedir (some d) m) else (thrown, some d, with_machine s m)

  unfoldable pub impl_iterator : Method W
  unfolding after_next
  impl_iterator none s = (fault, none, with_machine s (no_errno s))
  impl_iterator (some d) s = after_next d s (k.readdir d (no_errno s))

  abbrev pub after_dirents : Session W → Result W ℕ → Answer × DirHandle × Session W
  after_dirents s (some d, m) =
      (returned (function "impl_iterator" ∷ new_dir d ∷ []), some d, with_machine s m)
  after_dirents s (none, m) = (thrown, none, with_machine s m)

  unfoldable pub impl_dirents : Option (List ℕ) → Session W → Answer × DirHandle × Session W
  impl_dirents none s = (thrown, none, s)
  impl_dirents (some dirname) s = after_dirents s (call (k.opendir dirname) s.machine)
