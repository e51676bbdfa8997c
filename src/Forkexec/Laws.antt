-- ===== src/Forkexec/Laws.antt =====
-- What src/lib/forkexec.cpp relies on: the documented effect of the system's calls on descriptors, pipes
-- and processes.
use dromozoa_unix.Prelude.{ℕ, ◌≡◌, ◌≢◌, Option, none, some, List}
use dromozoa_unix.Prelude.Int.{ℤ, pos}
use dromozoa_unix.Fd.{Reply, done, failed, Machine, Kernel}
use dromozoa_unix.Fd.Compat.{Openers}
use dromozoa_unix.Fd.Laws.{View, Same}
use dromozoa_unix.Forkexec.{Processes}

-- What the parent relies on.
pub record ParentContract {W : Type 0} (v : View W) (p : Processes W) : Type 0 where
  pub fork_same : (w : W) → Same v w (p.fork w).1
  pub joined_same : (w c : W) → Same v w (p.joined w c)
  pub read_same : (fd : ℤ) (w : W) → Same v w (p.read_int fd w).1

-- Which pipe a descriptor is an end of, and the number that has been written to a pipe.
pub record PipeView (W : Type 0) : Type 0 where
  pub pipe_of : W → ℕ → Option ℕ
  pub content : W → ℕ → Option ℕ

module _ {W : Type 0} (v : PipeView W) where
  abbrev pub SameContent : W → W → Type 0
  SameContent w w' = (q : ℕ) → v.content w' q ≡ v.content w q

  abbrev pub SamePipes : W → W → Type 0
  SamePipes w w' = ((n : ℕ) → v.pipe_of w' n ≡ v.pipe_of w n) × SameContent w w'

  -- All but the descriptor `fd` are as before.
  abbrev pub SameBut : ℕ → W → W → Type 0
  SameBut fd w w' = ((n : ℕ) → n ≢ fd → v.pipe_of w' n ≡ v.pipe_of w n) × SameContent w w'

  -- An error number is not 0.
  abbrev pub Fails : {A : Type 0} → Reply A → Type 0
  Fails (done a) = Unit
  Fails (failed e) = e ≢ 0

  abbrev pub OpensNull : W → Reply ℕ × W → Type 0
  OpensNull w (done fd, w') = (v.pipe_of w fd ≡ none) × SameBut fd w w'
  OpensNull w (failed e, w') = SamePipes w w' × (e ≢ 0)

  -- Both ends of a new, empty pipe.
  abbrev pub OpensPipe : W → Reply (ℕ × ℕ) × W → Type 0
  OpensPipe w (done (a, b), w') =
      (q : ℕ) × (v.pipe_of w' a ≡ some q) × (v.pipe_of w' b ≡ some q) × (v.content w' q ≡ none)
  OpensPipe w (failed e, w') = e ≢ 0

  pub record PipeContract (k : Kernel W) (o : Openers W) (p : Processes W) : Type 0 where
    pub enoent_nonzero : p.exec.enoent ≢ 0
    pub execve_nonzero : (f : List ℕ) (w : W) (e : ℕ) → (p.exec.execve f w).0 ≡ some e → e ≢ 0
    pub execve_same : (f : List ℕ) (w : W) → SamePipes w (p.exec.execve f w).1
    pub chdir_same : (d : List ℕ) (w : W) → SamePipes w (p.chdir d w).1 × Fails (p.chdir d w).0
    pub dup2_same :
        (fd : ℤ) (to : ℕ) (w : W) → SameBut to w (p.dup2 fd to w).1 × Fails (p.dup2 fd to w).0
    pub open_null_opens : (w : W) → OpensNull w (p.open_null w)
    pub close_same :
        (fd : ℤ) (w : W)
        → ((n : ℕ) → pos n ≢ fd → v.pipe_of (k.close fd w).1 n ≡ v.pipe_of w n)
          × SameContent w (k.close fd w).1
    pub unexpected_same : (e : ℕ) (s : Machine W) → SamePipes s.os (k.unexpected e s).os
    pub sigfillset_same : (w : W) → SamePipes w (k.sigfillset w).1
    pub sigemptyset_same : (w : W) → SamePipes w (k.sigemptyset w).1 × Fails (k.sigemptyset w).0
    pub pthread_same : (m : ℕ) (w : W) → SamePipes w (k.pthread_sigmask m w).1
    pub sigprocmask_same :
        (m : ℕ) (w : W) → SamePipes w (k.sigprocmask m w).1 × Fails (k.sigprocmask m w).0
    pub pipe2_opens : (f : ℕ) (w : W) → OpensPipe w (o.pipe2 f w)
    pub write_writes :
        (fd q e : ℕ) (w : W)
        → v.pipe_of w fd ≡ some q
        → v.content w q ≡ none
        → v.content (p.write_int (pos fd) e w).1 q ≡ some e
    pub read_reads :
        (fd q : ℕ) (w : W)
        → v.pipe_of w fd ≡ some q
        → (p.read_int (pos fd) w).0 ≡ done (v.content w q)
    pub fork_same : (w : W) → SamePipes w (p.fork w).1 × SamePipes w (p.child (p.fork w).1)
    pub joined_same : (w c : W) (n : ℕ) → v.pipe_of (p.joined w c) n ≡ v.pipe_of w n
    pub joined_content :
        (w c : W) (q : ℕ) → v.content w q ≡ none → v.content (p.joined w c) q ≡ v.content c q
