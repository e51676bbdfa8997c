-- ===== src/Fd/Laws.antt =====
-- What the scopes of src/lib/file_descriptor.cpp and sigmask.cpp rely on: the documented effect of the
-- system's calls on the open descriptors and on the signal mask.
use dromozoa_unix.Prelude.{ℕ, ◌≡◌, ◌≢◌, Bool, false, not, ◌||◌, ◌&&◌, none, some, List, ◌==◌}
use dromozoa_unix.Prelude.Int.{pos}
use dromozoa_unix.Fd.{Reply, done, failed, Machine, Kernel, Command, Result}
use dromozoa_unix.Fd.Compat.{Openers}

-- What is seen of the system: which descriptors are open, and the signal mask. An error number is
-- `Reported` when a call that opens, or sets flags, gives it.
pub record View (W : Type 0) : Type 1 where
  pub opened : W → ℕ → Bool
  pub mask : W → ℕ
  pub Reported : ℕ → Type 0

module _ {W : Type 0} (v : View W) where
  abbrev pub SameOpen : W → W → Type 0
  SameOpen w w' = (n : ℕ) → v.opened w' n ≡ v.opened w n

  abbrev pub Same : W → W → Type 0
  Same w w' = SameOpen w w' × (v.mask w' ≡ v.mask w)

  -- A call that changes neither.
  abbrev pub Quiet : {A : Type 0} → W → Reply A × W → Type 0
  Quiet w (done a, w') = Same w w'
  Quiet w (failed e, w') = Same w w' × v.Reported e

  abbrev pub Closes : ℕ → W → Reply Unit × W → Type 0
  Closes fd w (r, w') =
      ((n : ℕ) → v.opened w' n ≡ (v.opened w n && not (n == fd))) × (v.mask w' ≡ v.mask w)

  abbrev pub Masks : ℕ → W → Reply ℕ × W → Type 0
  Masks m w (done old, w') = (old ≡ v.mask w) × (v.mask w' ≡ m) × SameOpen w w'
  Masks m w (failed e, w') = ⊥

  abbrev pub GainsOne : W → ℕ → W → Type 0
  GainsOne w a w' =
      (v.opened w a ≡ false)
      × ((n : ℕ) → v.opened w' n ≡ (v.opened w n || n == a))
      × (v.mask w' ≡ v.mask w)

  abbrev pub GainsTwo : W → ℕ → ℕ → W → Type 0
  GainsTwo w a b w' =
      (a ≢ b)
      × (v.opened w a ≡ false)
      × (v.opened w b ≡ false)
      × ((n : ℕ) → v.opened w' n ≡ (v.opened w n || (n == a || n == b)))
      × (v.mask w' ≡ v.mask w)

  -- A call that opens one descriptor, found in its answer by `fd`, or two.
  abbrev pub OpensOne : {A : Type 0} → (A → ℕ) → W → Reply A × W → Type 0
  OpensOne fd w (done a, w') = GainsOne w (fd a) w'
  OpensOne fd w (failed e, w') = Same w w' × v.Reported e

  abbrev pub OpensTwo : W → Reply (ℕ × ℕ) × W → Type 0
  OpensTwo w (done (a, b), w') = GainsTwo w a b w'
  OpensTwo w (failed e, w') = Same w w' × v.Reported e

  -- The same of an action: the descriptors it has gained, or an error and nothing gained.
  abbrev pub LeavesNone : {A : Type 0} → Machine W → Result W A → Type 0
  LeavesNone s (some a, s') = Same s.os s'.os
  LeavesNone s (none, s') = Same s.os s'.os × v.Reported s'.errno

  abbrev pub LeavesOne : {A : Type 0} → (A → ℕ) → Machine W → Result W A → Type 0
  LeavesOne fd s (some a, s') = GainsOne s.os (fd a) s'.os
  LeavesOne fd s (none, s') = Same s.os s'.os × v.Reported s'.errno

  abbrev pub LeavesTwo : Machine W → Result W (ℕ × ℕ) → Type 0
  LeavesTwo s (some (a, b), s') = GainsTwo s.os a b s'.os
  LeavesTwo s (none, s') = Same s.os s'.os × v.Reported s'.errno

  -- The errors of `close`, `unlink` and `unexpected` are not restricted.
  pub record Contract (k : Kernel W) (o : Openers W) : Type 0 where
    pub fcntl_quiet : (fd : ℕ) (c : Command) (a : ℕ) (w : W) → Quiet w (k.fcntl fd c a w)
    pub close_closes : (fd : ℕ) (w : W) → Closes fd w (k.close (pos fd) w)
    pub sigfillset_quiet : (w : W) → Quiet w (k.sigfillset w)
    pub pthread_masks : (m : ℕ) (w : W) → Masks m w (k.pthread_sigmask m w)
    pub sigprocmask_masks : (m : ℕ) (w : W) → Masks m w (k.sigprocmask m w)
    pub unexpected_quiet : (e : ℕ) (s : Machine W) → Same s.os (k.unexpected e s).os
    pub pipe_opens : (w : W) → OpensTwo w (o.pipe w)
    pub pipe2_opens : (flags : ℕ) (w : W) → OpensTwo w (o.pipe2 flags w)
    pub socket_opens : (d t p : ℕ) (w : W) → OpensOne {A = ℕ} (λ a. a) w (o.socket d t p w)
    pub socketpair_opens : (d t p : ℕ) (w : W) → OpensTwo w (o.socketpair d t p w)
    pub accept_opens : (fd : ℕ) (w : W) → OpensOne {A = ℕ} (λ a. a) w (o.accept fd w)
    pub accept4_opens : (fd f : ℕ) (w : W) → OpensOne {A = ℕ} (λ a. a) w (o.accept4 fd f w)
    pub mkstemp_opens :
        (t : List ℕ) (w : W) → OpensOne {A = ℕ × List ℕ} (λ a. a.0) w (o.mkstemp t w)
    pub mkostemp_opens :
        (t : List ℕ) (f : ℕ) (w : W) → OpensOne {A = ℕ × List ℕ} (λ a. a.0) w (o.mkostemp t f w)
    pub unlink_same : (name : List ℕ) (w : W) → Same w (o.unlink name w).1
