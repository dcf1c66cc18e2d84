-- ===== src/Conversations/Forest.antt =====
-- The trees of the parents under `root` of crates/imail-core/src/messages/conversation.rs.
use i_mail.Base.{
  ℕ, zero, suc, ◌≤◌, ◌≡◌, ◌≢◌, refl, sym, ◌∙◌, ap, subst, inl, inr, ◌⊎◌, true, false, none, some,
  ◌==◌, Bool-cases, nat_eq_refl, arith,
}
use i_mail.Conversations.Union.{Parents, assign, halve, root}

-- `r` is the root above `k`, at `d` steps.
abbrev pub IsRoot : Parents → ℕ → ℕ → ℕ → Type 0
IsRoot p zero k r = (k ≡ r) × (p k ≡ k)
IsRoot p (suc d) k r = (p k ≢ k) × IsRoot p d (p k) r

pub root_unique :
    (p : Parents) (d e k r s : ℕ) → IsRoot p d k r → IsRoot p e k s → (d ≡ e) × (r ≡ s)
root_unique p zero zero k r s h g = (refl, sym h.0 ∙ g.0)
root_unique p zero (suc e) k r s h g = absurd (g.0 h.1)
root_unique p (suc d) zero k r s h g = absurd (h.0 g.1)
root_unique p (suc d) (suc e) k r s h g =
    let (n, t) = root_unique p d e (p k) r s h.1 g.1 in (ap suc n, t)

-- A root is its own parent.
pub root_fixed : (p : Parents) (d k r : ℕ) → IsRoot p d k r → p r ≡ r
root_fixed p zero k r h = subst (λ x. p x ≡ x) h.0 h.1
root_fixed p (suc d) k r h = root_fixed p d (p k) r h.1

not_zero_cycle : (p : Parents) (d i s : ℕ) → IsRoot p (suc d) i s → p (p i) ≢ i
not_zero_cycle p zero i s h e = h.0 (sym (h.1.1) ∙ e)
not_zero_cycle p (suc d) i s h e =
    let again : IsRoot p d i s = subst (λ x. IsRoot p d x s) e h.1.1 in
    let n = (root_unique p d (suc (suc d)) i s s again h).0 in absurd (omega (arith, n))

pub assign-same : (p : Parents) (i v : ℕ) → assign p i v i ≡ v
assign-same p i v = rw (nat_eq_refl i) refl

pub assign-other : (p : Parents) (i v k : ℕ) → k ≢ i → assign p i v k ≡ p k
assign-other p i v k n = ground (arith, n)

pub nat-cases : (m n : ℕ) → (m ≡ n) ⊎ (m ≢ n)
nat-cases m n = elim (Bool-cases (m == n)) [
  | inl e ↦ inl (ground (arith, e))
  | inr e ↦ inr (λ t. ground (arith, e, t))
]

-- `r` is the root above `k`, at no more than `d` steps.
abbrev pub IsWithin : Parents → ℕ → ℕ → ℕ → Type 0
IsWithin p d k r = (e : ℕ) × (e ≤ d) × IsRoot p e k r

-- Nothing moves to another root or further away from it.
abbrev pub IsKept : Parents → Parents → Type 0
IsKept p q = (d k r : ℕ) → IsRoot p d k r → IsWithin q d k r

pub IsKept-trans : (p q u : Parents) → IsKept p q → IsKept q u → IsKept p u
IsKept-trans p q u f g d k r h =
    let (e, le, at) = f d k r h in
    let (e', le', at') = g e k r at in (e', omega (arith, le, le'), at')

-- The node whose parent is skipped.
halve-here :
    (p : Parents) (i d s e : ℕ)
    → IsRoot p (suc d) i s
    → IsRoot (halve p i) e (p i) s
    → e ≤ d
    → IsWithin (halve p i) (suc d) i s
halve-here p i d s zero h g le =
    let same = assign-same p i (p (p i)) in
    let above = assign-other p i (p (p i)) (p i) h.0 in
    let top : p (p i) ≡ p i = sym above ∙ g.1 in
    let parent : halve p i i ≡ p i = same ∙ top in
    (
      1,
      omega arith,
      ((λ c. h.0 (sym parent ∙ c)), (parent ∙ g.0, subst (λ x. halve p i x ≡ x) (sym parent) g.1)),
    )
halve-here p i d s (suc e) h g le =
    let same = assign-same p i (p (p i)) in
    let above = assign-other p i (p (p i)) (p i) h.0 in
    (
      suc e,
      omega (arith, le),
      (
        (λ c. not_zero_cycle p d i s h (sym same ∙ c)),
        subst (λ x. IsRoot (halve p i) e x s) (above ∙ sym same) g.1,
      ),
    )

pub halve-IsKept : (p : Parents) (i : ℕ) → p i ≢ i → IsKept p (halve p i)
halve-IsKept p i n zero k s h =
    let other : k ≢ i = λ e. n (subst (λ x. p x ≡ x) e h.1) in
    (0, omega arith, (h.0, assign-other p i (p (p i)) k other ∙ h.1))
halve-IsKept p i n (suc d) k s h =
    let (e, le, at) = halve-IsKept p i n d (p k) s h.1 in
    elim (nat-cases k i) [
      | inl same ↦
          subst (λ x. IsWithin (halve p i) (suc d) x s) (sym same)
            (halve-here p i d s e (subst (λ x. IsRoot p (suc d) x s) same h)
              (subst (λ x. IsRoot (halve p i) e (p x) s) same at) le)
      | inr other ↦
          let parent = assign-other p i (p (p i)) k other in
          (
            suc e,
            omega (arith, le),
            ((λ c. h.0 (sym parent ∙ c)), subst (λ x. IsRoot (halve p i) e x s) (sym parent) at),
          )
    ]

-- The new parent is closer to the root.
halve-closer :
    (p : Parents) (d i r : ℕ) → IsRoot p (suc d) i r → IsWithin (halve p i) d (halve p i i) r
halve-closer p d i r h = closer (halve-IsKept p i h.0 (suc d) i r h)
  where
    closer : IsWithin (halve p i) (suc d) i r → IsWithin (halve p i) d (halve p i i) r
    closer (zero, le, at) =
        absurd (not_zero_cycle p d i r h (sym (assign-same p i (p (p i))) ∙ at.1))
    closer (suc e, le, at) = (e, omega (arith, le), at.1)

-- With fuel for the steps to the root the loop ends there, and keeps every root.
pub record IsFound (fuel : ℕ) (p : Parents) (i r : ℕ) : Type 0 where
  pub parents : Parents
  pub answer : root fuel p i ≡ some (r, parents)
  pub kept : IsKept p parents

pub test_true : (a b : ℕ) → a ≡ b → (a == b) ≡ true
test_true a b e = rw e (nat_eq_refl b)

pub test_false : (a b : ℕ) → a ≢ b → (a == b) ≡ false
test_false a b n = ground (arith, n)

stays : (p : Parents) → IsKept p p
stays p d k r h = (d, omega arith, h)

root-stop : (fuel : ℕ) (p : Parents) (i : ℕ) → p i ≡ i → root fuel p i ≡ some (i, p)
unfolding root
root-stop zero p i e = ap (λ b. elim b [ true ↦ some (i, p) | false ↦ none ]) (test_true (p i) i e)
root-stop (suc fuel) p i e =
    ap (λ b. elim b [ true ↦ some (i, p) | false ↦ root fuel (halve p i) (halve p i i) ])
      (test_true (p i) i e)

root-climb :
    (fuel : ℕ) (p : Parents) (i : ℕ)
    → p i ≢ i
    → root (suc fuel) p i ≡ root fuel (halve p i) (halve p i i)
unfolding root
root-climb fuel p i n =
    ap (λ b. elim b [ true ↦ some (i, p) | false ↦ root fuel (halve p i) (halve p i i) ])
      (test_false (p i) i n)

-- The loop of `root` ends within as many rounds as there are steps to the root: it answers with the root,
-- and with parents under which every index keeps its root and is no further from it than before.
pub root-IsFound :
    (fuel d : ℕ) (p : Parents) (i r : ℕ) → IsRoot p d i r → d ≤ fuel → IsFound fuel p i r
root-IsFound zero zero p i r h le = record {
  parents = p;
  answer = root-stop zero p i h.1 ∙ ap (λ x. some (x, p)) h.0;
  kept = stays p;
}
root-IsFound (suc fuel) zero p i r h le = record {
  parents = p;
  answer = root-stop (suc fuel) p i h.1 ∙ ap (λ x. some (x, p)) h.0;
  kept = stays p;
}
root-IsFound zero (suc d) p i r h le = absurd (omega (arith, le))
root-IsFound (suc fuel) (suc d) p i r h le =
    let (e, le', at) = halve-closer p d i r h in
    let rest = root-IsFound fuel e (halve p i) (halve p i i) r at (omega (arith, le, le')) in
    record {
      parents = rest.parents;
      answer = root-climb fuel p i h.0 ∙ rest.answer;
      kept = IsKept-trans p (halve p i) rest.parents (halve-IsKept p i h.0) rest.kept;
    }
