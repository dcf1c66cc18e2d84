-- ===== src/Conversations/Selected.antt =====
-- The last loop of `related` in crates/imail-core/src/messages/conversation.rs: it selects the messages
-- under a root.
use i_mail.Base.{
  ℕ, zero, suc, ◌+◌, ◌≤◌, ◌≡◌, refl, sym, subst, Bool, true, false, some, List, [], ◌∷◌, ◌==◌,
  get_elem?, All, All-map, Any, here, there, arith,
}
use mathlib.Core.Option.{some-injective}
use i_mail.Conversations.Union.{Parents}
use i_mail.Conversations.Forest.{IsRoot, IsKept, root_unique, root-IsFound, test_true}
use i_mail.Conversations.Joined.{IsForest}
use i_mail.Conversations.Linked.{IsAbove}
use i_mail.Conversations.Related.{Message, keep_if, select_under}

-- A change that keeps the roots keeps them both ways.
module _ (m : ℕ) (p q : Parents) (forest : IsForest m p) (kept : IsKept p q) where
  pub kept-IsForest : IsForest m q
  kept-IsForest k =
      let (r, (d, le, at)) = forest k in
      let (d', le', at') = kept d k r at in (r, (d', omega (arith, le, le'), at'))

  pub kept-IsAbove : (k r : ℕ) → IsAbove p k r → IsAbove q k r
  kept-IsAbove k r (d, at) = (let (d', le, at') = kept d k r at in (d', at'))

  pub IsAbove-kept : (k r : ℕ) → IsAbove q k r → IsAbove p k r
  IsAbove-kept k r (d, at) =
      let (r', (e, le, up)) = forest k in
      let (e', le', up') = kept e k r' up in
      (e, subst (λ x. IsRoot p e k x) (root_unique q e' d k r' r up' at).1 up)

-- The message stands at index `k`, counted from `n`, under the root `top`.
abbrev pub IsUnder : Parents → ℕ → ℕ → List Message → Message → Type 0
IsUnder p top n ms x = (k : ℕ) × ((get_elem? ms k ≡ some x) × IsAbove p (n + k) top)

-- The selection ends, and holds the messages under the root and no other.
pub record IsSelection (fuel top : ℕ) (p : Parents) (n : ℕ) (ms : List Message) : Type 0 where
  pub result : List Message
  pub answer : select_under fuel top p n ms ≡ some result
  pub members : All (IsUnder p top n ms) result
  pub complete :
      (k : ℕ) (x : Message)
      → get_elem? ms k ≡ some x
      → IsAbove p (n + k) top
      → Any (λ y. y ≡ x) result

keep_if-All :
    (P : Message → Type 0) (b : Bool) (m : Message) (ms : List Message)
    → (b ≡ true → P m)
    → All P ms
    → All P (keep_if b m ms)
keep_if-All P true m ms f h = (f refl, h)
keep_if-All P false m ms f h = h

keep_if-Any :
    (P : Message → Type 0) (b : Bool) (m : Message) (ms : List Message)
    → Any P ms
    → Any P (keep_if b m ms)
keep_if-Any P true m ms h = there h
keep_if-Any P false m ms h = h

later :
    (p : Parents) (top n : ℕ) (m : Message) (ms : List Message) (x : Message)
    → IsUnder p top (suc n) ms x
    → IsUnder p top n (m ∷ ms) x
later p top n m ms x (k, (e, at)) =
    let moved : suc n + k ≡ n + suc k = omega arith in
    (suc k, (e, subst (λ j. IsAbove p j top) moved at))

pub select_under-IsSelection :
    (fuel top m : ℕ) (p : Parents) (n : ℕ) (ms : List Message)
    → IsForest m p
    → m ≤ fuel
    → IsSelection fuel top p n ms
select_under-IsSelection fuel top m p n [] forest le = record {
  result = [];
  answer = refl;
  members = tt;
  complete = λ k x e. cc;
}
select_under-IsSelection fuel top m p n (x ∷ xs) forest le =
    let (r, (d, small, at)) = forest n in
    let found = root-IsFound fuel d p n r at (omega (arith, small, le)) in
    let q = found.parents in
    let rest =
      select_under-IsSelection fuel top m q (suc n) xs (kept-IsForest m p q forest found.kept) le in
    let back = IsAbove-kept m p q forest found.kept in
    record {
      result = keep_if (r == top) x rest.result;
      answer = rw (found.answer, rest.answer) refl;
      members =
          keep_if-All (IsUnder p top n (x ∷ xs)) (r == top) x rest.result
            (λ t. (
              0,
              (
                refl,
                (let same : r ≡ top = ground (arith, t) in
                    let here_ : n + 0 ≡ n = omega arith in
                    subst (λ j. IsAbove p j top) (sym here_)
                      (d, subst (λ y. IsRoot p d n y) same at)),
              ),
            ))
            (All-map (IsUnder q top (suc n) xs) (IsUnder p top n (x ∷ xs))
              (λ y (k, (e, up)). later p top n x xs y (k, (e, back (suc n + k) top up))) rest.result
              rest.members);
      complete = complete r d at rest.result (kept-IsAbove m p q forest found.kept) rest.complete;
    }
  where
    complete :
        (r d : ℕ)
        → IsRoot p d n r
        → {q : Parents} (result : List Message) → ((k r' : ℕ) → IsAbove p k r' → IsAbove q k r')
        → ((k : ℕ) (y : Message)
            → get_elem? xs k ≡ some y
            → IsAbove q (suc n + k) top
            → Any (λ z. z ≡ y) result)
        → (k : ℕ) (y : Message) → get_elem? (x ∷ xs) k ≡ some y
        → IsAbove p (n + k) top
        → Any (λ z. z ≡ y) (keep_if (r == top) x result)
    complete r d at result move rest zero y e (f, up) =
        let here_ : n + 0 ≡ n = omega arith in
        let same = (root_unique p d f n r top at (subst (λ j. IsRoot p f j top) here_ up)).1 in
        rw (test_true r top same) (here (some-injective x y e))
    complete r d at result move rest (suc k) y e up =
        let moved : n + suc k ≡ suc n + k = omega arith in
        keep_if-Any (λ z. z ≡ y) (r == top) x result
          (rest k y e (move (suc n + k) top (subst (λ j. IsAbove p j top) moved up)))
