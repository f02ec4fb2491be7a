-- ===== src/Schedule/Backoff.antt =====
-- The retry delays of schedule/schedule.go.
use native.Mathlib.Nat.{pow-suc}
use sisyphus.Prelude.{
  ℕ, zero, suc, ◌-◌, ◌*◌, ◌^◌, ◌≤◌, ◌<◌, min, ◌≡◌, refl, arith, ltb, if◌then◌else◌, Bool-cases, inl,
  inr, ap, ◌∙◌,
}
use sisyphus.Prelude.Int.{ℤ, pos, negsuc, positive_or}
use sisyphus.Schedule.{double, grow, backoff_from, schedule_backoff, max_schedule_backoff, second}

pow-pos : (n : ℕ) → 1 ≤ 2 ^ n
pow-pos zero = omega arith
pow-pos (suc n) = rw pow-suc (omega (arith, pow-pos n))

exact : (d : ℕ) → d < 600_000_000_000 → double d ≡ d * 2
exact d h = omega arith

-- Below twice the cap the doubling never wraps, and past the cap it stops.
min-grow :
    (n d : ℕ)
    → d < 600_000_000_000
    → min (grow n d) max_schedule_backoff ≡ min (d * 2 ^ n) max_schedule_backoff
unfolding grow
min-grow zero d h = omega arith
min-grow (suc n) d h = elim (Bool-cases (ltb d max_schedule_backoff)) [
  | inl e ↦ rw e (
      min-grow n (double d) (ground arith)
      ∙ ap (λ t. min t max_schedule_backoff) (regroup n d (ground arith)))
  | inr e ↦ rw e (capped d (2 ^ suc n) (ground arith) (pow-pos (suc n)))
]
  where
    regroup : (n d : ℕ) → d < 600_000_000_000 → double d * 2 ^ n ≡ d * 2 ^ suc n
    regroup n d h = rw (exact d h) (rw (pow-suc 2 n) (omega arith))

    capped :
        (d k : ℕ)
        → max_schedule_backoff ≤ d
        → 1 ≤ k
        → min d max_schedule_backoff ≡ min (d * k) max_schedule_backoff
    capped d k h p = grind arith

grow_bound : (n d : ℕ) → d < 600_000_000_000 → grow n d < 600_000_000_000
unfolding grow
grow_bound zero d h = h
grow_bound (suc n) d h = ground (arith, grow_bound n (double d))

-- A delay, for an interval below the cap: it doubles with every failure, exactly, up to the cap,
-- and the int64 never overflows. An interval that is not below the cap is the delay itself, and one
-- that is not positive counts as a second.
pub schedule_backoff_closed :
    (interval : ℤ) (fails : ℕ)
    → let i = positive_or second interval in
      schedule_backoff interval fails
      ≡ (if ltb i max_schedule_backoff then min (i * 2 ^ (fails - 1)) max_schedule_backoff else i)
unfolding schedule_backoff
schedule_backoff_closed interval fails = closed (positive_or second interval) fails
  where
    grow_large : (n i : ℕ) → max_schedule_backoff ≤ i → grow n i ≡ i
    grow_large zero i h = unfold grow in refl
    grow_large (suc n) i h = unfold grow in (ground arith)

    closed :
        (i fails : ℕ)
        → backoff_from i fails ≡ (
            if ltb i max_schedule_backoff
            then min (i * 2 ^ (fails - 1)) max_schedule_backoff
            else i)
    closed i fails = elim (Bool-cases (ltb i max_schedule_backoff)) [
      | inl e ↦ rw e (unfold backoff_from in ground (arith, min-grow (fails - 1) i))
      | inr e ↦ rw e (unfold backoff_from in ground (arith, grow_large (fails - 1) i))
    ]

product_pos : (a b : ℕ) → 1 ≤ a → 1 ≤ b → 1 ≤ a * b
product_pos a b h k = grind arith

pub positive_or_pos : (interval : ℤ) → 1 ≤ positive_or second interval
positive_or_pos (pos zero) = omega arith
positive_or_pos (pos (suc n)) = omega arith
positive_or_pos (negsuc n) = omega arith

pub schedule_backoff_pos : (interval : ℤ) (fails : ℕ) → 1 ≤ schedule_backoff interval fails
schedule_backoff_pos interval fails = rw schedule_backoff_closed (
    ground (
      arith,
      product_pos (positive_or second interval) (2 ^ (fails - 1)) (positive_or_pos interval)
          (pow-pos (fails - 1)),
      positive_or_pos interval,
    ))
