-- ===== src/Targets/Retries.antt =====
-- The waits between the attempts of a failing sync.
use Prim.Native.Nat.{zero}
use i_mail.Base.{ℕ, suc, ◌≡◌, ap, ◌≤◌, ◌+◌, arith, min, get_elem?, subst}
use i_mail.Targets.Policy.{retry_minutes, retry_table, or_zero}

-- After five failures the wait stays at an hour.
long : (k : ℕ) → retry_minutes (suc (suc (suc (suc (suc k))))) ≡ 60
unfolding retry_minutes
long k =
    let e : min (suc (suc (suc (suc k)))) 4 ≡ 4 = omega arith in
    ap (λ i. or_zero (get_elem? retry_table i)) e

at_most : (n : ℕ) → (1 ≤ retry_minutes n) × (retry_minutes n ≤ 60)
unfolding retry_minutes
at_most zero = (omega arith, omega arith)
at_most (suc zero) = (omega arith, omega arith)
at_most (suc (suc zero)) = (omega arith, omega arith)
at_most (suc (suc (suc zero))) = (omega arith, omega arith)
at_most (suc (suc (suc (suc zero)))) = (omega arith, omega arith)
at_most (suc (suc (suc (suc (suc k))))) = (omega (arith, long k), omega (arith, long k))

one_more : (n : ℕ) → retry_minutes (suc n) ≤ retry_minutes (suc (suc n))
unfolding retry_minutes
one_more zero = omega arith
one_more (suc zero) = omega arith
one_more (suc (suc zero)) = omega arith
one_more (suc (suc (suc zero))) = omega arith
one_more (suc (suc (suc (suc k)))) = omega (arith, long k, long (suc k))

climb : (n d : ℕ) → retry_minutes (suc n) ≤ retry_minutes (suc n + d)
climb n zero =
    let e : suc n ≡ suc n + 0 = omega arith in
    subst (λ i. retry_minutes (suc n) ≤ retry_minutes i) e (omega arith)
climb n (suc d) =
    let e : suc n + d ≡ suc (n + d) = omega arith in
    let f : suc (suc (n + d)) ≡ suc n + suc d = omega arith in
    let below = subst (λ i. retry_minutes (suc n) ≤ retry_minutes i) e (climb n d) in
    subst (λ i. retry_minutes (suc n) ≤ retry_minutes i) f (omega (arith, below, one_more (n + d)))

-- For every number of failures the wait is between one minute and an hour; and from one failure on,
-- further failures never make it shorter.
pub retry_minutes-bounds :
    (n d : ℕ)
    → (1 ≤ retry_minutes n)
      × (retry_minutes n ≤ 60)
      × (retry_minutes (suc n) ≤ retry_minutes (suc n + d))
retry_minutes-bounds n d = ((at_most n).0, (at_most n).1, climb n d)
