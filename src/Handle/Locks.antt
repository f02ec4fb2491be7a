-- ===== src/Handle/Locks.antt =====
-- The table of lock files: its references count the open handles of each key.
use sisyphus.Prelude.{
  ℕ, ◌+◌, ◌-◌, ◌<◌, String, ◌≡◌, refl, Bool, true, ◌&&◌, [], ◌∷◌, arith, str_eq, eq_iff,
  if◌then◌else◌,
}
use sisyphus.Handle.{
  Handle, Locks, Call, refs, set_refs, drop_refs, acquire, release, shut, on_idle, close, run_fn,
  do_enter, do_resume,
}

refs-set_refs :
    (k j : String) (n : ℕ) (l : Locks)
    → refs j (set_refs k n l) ≡ (if str_eq k j then n else refs j l)
unfolding refs set_refs
refs-set_refs k j n [] = refl
refs-set_refs k j n ((i, m) ∷ l) =
    ground (arith, refs-set_refs k j n l, eq_iff i k, eq_iff i j, eq_iff k j)

refs-drop_refs :
    (k j : String) (l : Locks) → refs j (drop_refs k l) ≡ (if str_eq k j then 0 else refs j l)
unfolding refs drop_refs
refs-drop_refs k j [] = ground arith
refs-drop_refs k j ((i, m) ∷ l) =
    ground (arith, refs-drop_refs k j l, eq_iff i k, eq_iff i j, eq_iff k j)

pub refs-release :
    (k j : String) (l : Locks)
    → refs j (release k l) ≡ (if str_eq k j then refs j l - 1 else refs j l)
unfolding release
refs-release k j l =
    ground (arith, refs-set_refs k j (refs k l - 1) l, refs-drop_refs k j l, eq_iff k j)

pub refs-acquire :
    (k j : String) (lock_ok : Bool) (l : Locks)
    → refs j (acquire k lock_ok l).1
      ≡ (if (acquire k lock_ok l).0 && str_eq k j then refs j l + 1 else refs j l)
unfolding acquire
refs-acquire k j lock_ok l =
    ground (arith, refs-set_refs k j (refs k l + 1) l, refs-set_refs k j 1 l, eq_iff k j)

abbrev pub opens : String → Handle → ℕ
opens k h = if h.db && str_eq h.key k then 1 else 0

-- That a step moves the references of every key along with the handle's opening of it.
pub record Tracks (h : Handle) (l : Locks) (h' : Handle) (l' : Locks) : Type 0 where
  pub balance : (k : String) → refs k l' + opens k h ≡ refs k l + opens k h'
  pub same_key : h'.key ≡ h.key

-- The lock of an open handle is held.
abbrev pub IsHeld : Handle → Locks → Type 0
IsHeld h l = h.db ≡ true → 0 < refs h.key l

pub Tracks-shut : (h : Handle) (l : Locks) → IsHeld h l → Tracks h l (shut h l).0 (shut h l).1
unfolding shut
Tracks-shut h l held = record {
  balance = λ k. ground (arith, refs-release h.key k l, eq_iff h.key k);
  same_key = ground arith;
}

pub Tracks-on_idle :
    (h : Handle) (l : Locks) → IsHeld h l → Tracks h l (on_idle h l).0 (on_idle h l).1
unfolding on_idle
Tracks-on_idle h l held = record {
  balance = λ k. ground (arith, refs-release h.key k l, eq_iff h.key k);
  same_key = ground arith;
}

pub Tracks-close : (h : Handle) (l : Locks) → IsHeld h l → Tracks h l (close h l).0 (close h l).1
unfolding close
Tracks-close h l held = record {
  balance = λ k. ground (arith, refs-release h.key k l, eq_iff h.key k);
  same_key = ground arith;
}

pub Tracks-run_fn :
    (c : Call) (h : Handle) (l : Locks) → Tracks h l (run_fn c h l).1 (run_fn c h l).2
unfolding run_fn
Tracks-run_fn c h l = record {
  balance = λ k. ground (
    arith,
    refs-acquire h.key k c.lock_ok l,
    refs-release h.key k (acquire h.key c.lock_ok l).1,
    eq_iff h.key k,
  );
  same_key = ground arith;
}

pub Tracks-do_enter :
    (c : Call) (h : Handle) (l : Locks)
    → IsHeld h l
    → Tracks h l (do_enter c h l).1 (do_enter c h l).2
unfolding do_enter
Tracks-do_enter c h l held = record {
  balance = λ k. ground (
    arith,
    refs-acquire h.key k c.lock_ok l,
    refs-release h.key k l,
    refs-release h.key k (acquire h.key c.lock_ok l).1,
    eq_iff h.key k,
  );
  same_key = ground arith;
}

pub Tracks-do_resume :
    (c : Call) (h : Handle) (l : Locks) → Tracks h l (do_resume c h l).1 (do_resume c h l).2
unfolding do_resume
Tracks-do_resume c h l = record {
  balance = λ k. ground (
    arith,
    refs-acquire h.key k c.lock_ok l,
    refs-release h.key k (acquire h.key c.lock_ok l).1,
    eq_iff h.key k,
  );
  same_key = ground arith;
}
