-- ===== src/Handle/Process.antt =====
-- The handles of one process and its table of lock files, under any interleaving of operations,
-- expiring timers, late callbacks and calls that wait in yieldLocked without the mutex.
use sisyphus.Prelude.{
  ℕ, ◌+◌, ◌<◌, String, ◌≡◌, refl, subst, sym, List, [], ◌∷◌, ◌++◌, arith, eq_refl, All, All-append,
}
use sisyphus.Fault.{Error}
use sisyphus.Handle.{
  Handle, Locks, Call, refs, expire, on_idle, close, do_enter, do_resume, new_handle,
}
use sisyphus.Handle.Watch.{
  IsWatched, IsWatched-new, IsWatched-expire, IsWatched-on_idle, IsWatched-close,
  IsWatched-do_enter, IsWatched-do_resume,
}
use sisyphus.Handle.Locks.{
  opens, Tracks, IsHeld, Tracks-on_idle, Tracks-close, Tracks-do_enter, Tracks-do_resume,
}

-- What happens to one handle while it has the mutex. A callback runs only if one is on its way, and
-- a call resumes only if one has yielded.
pub data Act (h : Handle) (l : Locks) : Handle → Locks → Type 0 where
  expires : Act h l (expire h) l
  runs_idle : 0 < h.in_flight → Act h l (on_idle h l).0 (on_idle h l).1
  closes : Act h l (close h l).0 (close h l).1
  enters : (c : Call) → Act h l (do_enter c h l).1 (do_enter c h l).2
  resumes : (c : Call) → 0 < h.yielding → Act h l (do_resume c h l).1 (do_resume c h l).2

pub record Process : Type 0 where
  pub handles : List Handle
  pub locks : Locks

pub data Step (p q : Process) : Type 0 where
  create :
      (k : String) (m : ℕ) (u : Error)
      → q ≡ record { handles = new_handle k m u ∷ p.handles; locks = p.locks }
      → Step p q
  act :
      (before after : List Handle) (h h' : Handle) (l' : Locks)
      → p.handles ≡ before ++ h ∷ after
      → Act h p.locks h' l'
      → q ≡ record { handles = before ++ h' ∷ after; locks = l' }
      → Step p q

abbrev pub start : Process
start = record { handles = []; locks = [] }

pub data Reach : Process → Type 0 where
  begin : Reach start
  next : {p q : Process} → Reach p → Step p q → Reach q

abbrev pub total_opens : String → List Handle → ℕ
total_opens k [] = 0
total_opens k (h ∷ hs) = opens k h + total_opens k hs

pub record IsSafe (p : Process) : Type 0 where
  pub watched : All IsWatched p.handles
  pub counted : (k : String) → refs k p.locks ≡ total_opens k p.handles

total_opens-append :
    (k : String) (xs ys : List Handle)
    → total_opens k (xs ++ ys) ≡ total_opens k xs + total_opens k ys
total_opens-append k [] ys = omega arith
total_opens-append k (h ∷ xs) ys = omega (arith, total_opens-append k xs ys)

All-split :
    (xs : List Handle) (h : Handle) (ys : List Handle)
    → All IsWatched (xs ++ h ∷ ys)
    → All IsWatched xs × IsWatched h × All IsWatched ys
All-split [] h ys a = (tt, a.0, a.1)
All-split (x ∷ xs) h ys a = let (b, c, d) = All-split xs h ys a.1 in ((a.0, b), c, d)

Act-IsWatched :
    (h : Handle) (l : Locks) {h' : Handle} {l' : Locks} → Act h l h' l' → IsWatched h → IsWatched h'
Act-IsWatched h l expires w = IsWatched-expire h w
Act-IsWatched h l (runs_idle f) w = IsWatched-on_idle h l f w
Act-IsWatched h l closes w = IsWatched-close h l w
Act-IsWatched h l (enters c) w = IsWatched-do_enter c h l w
Act-IsWatched h l (resumes c y) w = IsWatched-do_resume c h l w

Tracks-expire : (h : Handle) (l : Locks) → Tracks h l (expire h) l
unfolding expire
Tracks-expire h l = record { balance = λ k. ground arith; same_key = ground arith }

Act-Tracks :
    (h : Handle) (l : Locks) {h' : Handle} {l' : Locks}
    → Act h l h' l'
    → IsHeld h l
    → Tracks h l h' l'
Act-Tracks h l expires d = Tracks-expire h l
Act-Tracks h l (runs_idle f) d = Tracks-on_idle h l d
Act-Tracks h l closes d = Tracks-close h l d
Act-Tracks h l (enters c) d = Tracks-do_enter c h l d
Act-Tracks h l (resumes c y) d = Tracks-do_resume c h l

Act-IsSafe :
    (before after : List Handle) (h h' : Handle) (l l' : Locks)
    → Act h l h' l'
    → IsSafe (record { handles = before ++ h ∷ after; locks = l })
    → IsSafe (record { handles = before ++ h' ∷ after; locks = l' })
Act-IsSafe before after h h' l l' a safe =
    let (b, w, c) = All-split before h after safe.watched in
    let held : IsHeld h l = λ open_.
      (let own : opens h.key h ≡ 1 = rw open_ (simp eq_refl) in
        omega (arith, own, safe.counted h.key, total_opens-append h.key before (h ∷ after))) in
    let tracks = Act-Tracks h l a held in
    record {
      watched = All-append IsWatched before (h' ∷ after) b (Act-IsWatched h l a w, c);
      counted = λ k. omega (
        arith,
        tracks.balance k,
        safe.counted k,
        total_opens-append k before (h ∷ after),
        total_opens-append k before (h' ∷ after),
      );
    }

Step-IsSafe : {p q : Process} → Step p q → IsSafe p → IsSafe q
Step-IsSafe {p} {q} (create k m u e) safe = subst IsSafe (sym e) (record {
  watched = (IsWatched-new k m u, safe.watched);
  counted = λ j. unfold new_handle in ground (arith, safe.counted j);
})
Step-IsSafe {p} {q} (act before after h h' l' split a e) safe = subst IsSafe (sym e) (
    Act-IsSafe before after h h' p.locks l' a
      (subst (λ hs. IsSafe (record { handles = hs; locks = p.locks })) split safe))

-- Whatever happens in a process, in any order: every handle stays watched by its timer, and the
-- references of each lock file are exactly the handles that have its database open; so the lock is
-- given back when, and only when, the last of them closes.
pub Reach-IsSafe : {p : Process} → Reach p → IsSafe p
unfolding refs
Reach-IsSafe begin = record { watched = tt; counted = λ k. refl }
Reach-IsSafe (next r s) = Step-IsSafe s (Reach-IsSafe r)
