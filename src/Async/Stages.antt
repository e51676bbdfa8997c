-- ===== src/Async/Stages.antt =====
-- src/lib/async_service.cpp: a second `close` of a service, section by section.
use dromozoa_unix.Prelude.{
  ℕ, zero, suc, ◌+◌, ◌∙◌, sym, subst, ◌≡◌, refl, ap, Bool, true, false, Option, none, some, List,
  [], ◌∷◌, arith, ◌⊎◌, inl, inr,
}
use dromozoa_unix.Prelude.Int.{ℤ}
use dromozoa_unix.Async.Service.{Service, Node, close_queue}
use dromozoa_unix.Async.System.{
  Agent, close_entry, close_swap, close_cancel, crashed, Shared, Move, take, swap_ready, swap_queue,
  cancel_next, cancel_null, cancel_end, System, move, Reach, Later, now, go_on, Follow, stands,
  others, own,
}
use dromozoa_unix.Async.Shutdown.{IsClosed, front_null, Later-IsClosed}

close_queue-front : (s : Service) → IsClosed s → front_null (close_queue s).0 ≡ true
unfolding close_queue
close_queue-front s h = h

pub swap_queue-IsClosed :
    {m m' : Shared} {r w : ℤ} {bs : List Agent}
    → Move m (close_swap r w) m' bs
    → IsClosed m'.service
unfolding close_queue
swap_queue-IsClosed (swap_queue e) = ground arith

-- Where a second `close` stands after so many of its sections.
abbrev pub Stage : ℕ → Agent → Type 0
Stage zero a = a ≡ close_entry
Stage (suc zero) a = (r : ℤ) × (w : ℤ) × (a ≡ close_swap r w)
Stage (suc (suc zero)) a =
    (r : ℤ) × (w : ℤ) × (ns : List Node) × (a ≡ close_cancel r w 0 ns) × (front_null ns ≡ true)
Stage (suc (suc (suc zero))) a = (ns : List Node) × (a ≡ crashed 0 ns)
Stage (suc (suc (suc (suc n)))) a = ⊥

from_entry : {m m' : Shared} {c : Agent} → Move m close_entry m' (c ∷ []) → Stage 1 c
from_entry (swap_ready e) = (_, _, refl)

from_swap :
    {m m' : Shared} {r w : ℤ} {c : Agent}
    → IsClosed m.service
    → Move m (close_swap r w) m' (c ∷ [])
    → Stage 2 c
from_swap {m} h (swap_queue e) =
    (_, _, _, refl, ap (λ q. front_null q.0) (sym e) ∙ close_queue-front m.service h)

from_cancel :
    {m m' : Shared} {r w : ℤ} {ns : List Node} {c : Agent}
    → front_null ns ≡ true
    → Move m (close_cancel r w 0 ns) m' (c ∷ [])
    → Stage 3 c
from_cancel h cancel_next = absurd (ground arith)
from_cancel h cancel_null = (_, refl)
from_cancel h cancel_end = absurd (ground arith)

abbrev has_crashed : Agent → Bool
has_crashed (crashed k ns) = true
has_crashed _ = false

Move-alive : {m m' : Shared} {a : Agent} {bs : List Agent} → Move m a m' bs → has_crashed a ≡ false
Move-alive (take e) = refl
Move-alive mv = refl

Stage-next :
    {m m' : Shared} {b c : Agent} (n : ℕ)
    → IsClosed m.service
    → Stage n b
    → Move m b m' (c ∷ [])
    → Stage (n + 1) c
Stage-next {m} {m'} {b} {c} zero h e mv = from_entry (subst (λ a. Move m a m' (c ∷ [])) e mv)
Stage-next {m} {m'} {b} {c} (suc zero) h (r, w, e) mv =
    from_swap h (subst (λ a. Move m a m' (c ∷ [])) e mv)
Stage-next {m} {m'} {b} {c} (suc (suc zero)) h (r, w, ns, e, f) mv =
    from_cancel f (subst (λ a. Move m a m' (c ∷ [])) e mv)
Stage-next {m} {m'} {b} {c} (suc (suc (suc zero))) h (ns, e) mv =
    absurd (ground (arith, Move-alive mv, ap has_crashed e))
Stage-next (suc (suc (suc (suc n)))) h s mv = absurd s

-- An agent has a section to run.
abbrev pub GoesOn : Shared → Agent → Type 0
GoesOn m a = (m' : Shared) × (c : Agent) × Move m a m' (c ∷ [])

-- A second `close` has crashed after three sections, and goes on before.
abbrev pub Crashing : ℕ → System → Agent → Type 0
Crashing n v b = Stage n b × ((n ≡ 3) ⊎ GoesOn v.shared b)

null_moves :
    (m : Shared) (r w : ℤ) (ns : List Node)
    → front_null ns ≡ true
    → (m' : Shared) × (c : Agent) × Move m (close_cancel r w 0 ns) m' (c ∷ [])
null_moves m r w [] h = absurd (ground arith)
null_moves m r w (n ∷ ns) h = at_front n.id n.task h
  where
    at_front :
        (i : ℕ) (o : Option ℕ)
        → front_null (record { id = i; task = o } ∷ ns) ≡ true
        → (m' : Shared) × (c : Agent) × Move m
            (close_cancel r w 0 (record { id = i; task = o } ∷ ns))
            m'
            (c ∷ [])
    at_front i none g = (_, _, cancel_null)
    at_front i (some t) g = absurd (ground arith)

pub Stage-moves : (n : ℕ) (v : System) (b : Agent) → Stage n b → (n ≡ 3) ⊎ GoesOn v.shared b
Stage-moves zero v b e = inr (subst (GoesOn v.shared) (sym e) (_, _, swap_ready refl))
Stage-moves (suc zero) v b (r, w, e) = inr (subst (GoesOn v.shared) (sym e) (_, _, swap_queue refl))
Stage-moves (suc (suc zero)) v b (r, w, ns, e, f) =
    inr (subst (GoesOn v.shared) (sym e) (null_moves v.shared r w ns f))
Stage-moves (suc (suc (suc zero))) v b s = inl refl
Stage-moves (suc (suc (suc (suc n)))) v b s = absurd s

Follow-Later :
    {s : System} {a : Agent} {n : ℕ} {t : System} {b : Agent} → Follow s a n t b → Later s t
Follow-Later (stands pre post e) = now
Follow-Later (others pre post f st e) = go_on (Follow-Later f) st
Follow-Later (own pre post f e mv) = go_on (Follow-Later f) (move pre post e mv)

pub Follow-Stage :
    {start x y : ℕ} {reader writer : ℤ} {s t : System} {b : Agent} {n : ℕ}
    → Reach start x y reader writer s
    → IsClosed s.shared.service
    → Follow s close_entry n t b
    → Stage n b
Follow-Stage r h (stands pre post e) = refl
Follow-Stage r h (others pre post f st e) = Follow-Stage r h f
Follow-Stage r h (own {n} pre post f e mv) =
    Stage-next n (Later-IsClosed r h (Follow-Later f)) (Follow-Stage r h f) mv
