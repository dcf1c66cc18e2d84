-- ===== src/Conversations/Joined.antt =====
-- The trees under `join`, the body of the loop over the links of
-- crates/imail-core/src/messages/conversation.rs.
use i_mail.Base.{
  ℕ, zero, suc, ◌≤◌, ◌≡◌, ◌≢◌, refl, sym, ◌∙◌, subst, inl, inr, some, if◌then◌else◌, ◌==◌, arith,
}
use i_mail.Conversations.Union.{Parents, assign, attach, join}
use i_mail.Conversations.Forest.{
  IsRoot, IsWithin, root-IsFound, root_fixed, assign-same, assign-other, nat-cases, test_true,
  test_false,
}

-- Every index is within `m` steps of a root.
abbrev pub IsForest : ℕ → Parents → Type 0
IsForest m p = (k : ℕ) → (r : ℕ) × IsWithin p m k r

-- The root of what was below `r`, after `a` was put below `b`.
abbrev pub moved_root : ℕ → ℕ → ℕ → ℕ
moved_root a b r = if r == a then b else r

module _ (p : Parents) (a b : ℕ) (apart : a ≢ b) (top : p a ≡ a) (below : p b ≡ b) where
  assign-moved : (d k : ℕ) → IsRoot p d k a → IsRoot (assign p a b) (suc d) k b
  assign-moved zero k h =
      let parent : assign p a b k ≡ b =
        subst (λ x. assign p a b x ≡ b) (sym h.0) (assign-same p a b) in
      let fixed : assign p a b b ≡ b = assign-other p a b b (λ e. apart (sym e)) ∙ below in
      (
        (λ c. apart (sym h.0 ∙ sym c ∙ parent)),
        (parent, subst (λ x. assign p a b x ≡ x) (sym parent) fixed),
      )
  assign-moved (suc d) k h =
      let other : k ≢ a = λ e. h.0 (subst (λ x. p x ≡ x) (sym e) top) in
      let parent = assign-other p a b k other in
      (
        (λ c. h.0 (sym parent ∙ c)),
        subst (λ x. IsRoot (assign p a b) (suc d) x b) (sym parent) (assign-moved d (p k) h.1),
      )

  assign-still : (d k r : ℕ) → r ≢ a → IsRoot p d k r → IsRoot (assign p a b) d k r
  assign-still zero k r n h =
      let other : k ≢ a = λ e. n (sym h.0 ∙ e) in (h.0, assign-other p a b k other ∙ h.1)
  assign-still (suc d) k r n h =
      let other : k ≢ a = λ e. h.0 (subst (λ x. p x ≡ x) (sym e) top) in
      let parent = assign-other p a b k other in
      (
        (λ c. h.0 (sym parent ∙ c)),
        subst (λ x. IsRoot (assign p a b) d x r) (sym parent) (assign-still d (p k) r n h.1),
      )

attach-moved :
    (p : Parents) (a b : ℕ)
    → p a ≡ a
    → p b ≡ b
    → (d k r : ℕ) → IsRoot p d k r
    → IsWithin (attach a b p) (suc d) k (moved_root a b r)
attach-moved p a b top below d k r h = elim (nat-cases a b) [
  | inl same ↦
      let moved : moved_root a b r ≡ r = elim (nat-cases r a) [
        | inl e ↦ rw (test_true r a e) (sym same ∙ sym e)
        | inr n ↦ rw (test_false r a n) refl
      ] in
      let stays : attach a b p ≡ p = rw (test_true a b same) refl in
      subst (λ q. IsWithin q (suc d) k (moved_root a b r)) (sym stays)
        (subst (λ x. IsWithin p (suc d) k x) (sym moved) (d, omega arith, h))
  | inr apart ↦
      let assigned : attach a b p ≡ assign p a b = rw (test_false a b apart) refl in
      subst (λ q. IsWithin q (suc d) k (moved_root a b r)) (sym assigned)
        (elim (nat-cases r a) [
          | inl e ↦ rw (test_true r a e) (
            suc d,
            omega arith,
            assign-moved p a b apart top below d k (subst (λ x. IsRoot p d k x) e h),
          )
          | inr n ↦
              rw (test_false r a n) (d, omega arith, assign-still p a b apart top below d k r n h)
        ])
]

-- `i` and `j` are brought below one root.
pub record IsJoined (fuel m : ℕ) (p : Parents) (i j : ℕ) : Type 0 where
  pub parents : Parents
  pub answer : join fuel p i j ≡ some parents
  pub first : ℕ
  pub second : ℕ
  pub above_first : IsWithin p m i first
  pub above_second : IsWithin p m j second
  pub moved : (d k r : ℕ) → IsRoot p d k r → IsWithin parents (suc d) k (moved_root first second r)

-- With fuel for the depth of the forest a join ends; it puts the root above the one index below the root
-- above the other, which moves what was below the former and nothing else.
pub join-IsJoined :
    (fuel m : ℕ) (p : Parents) (i j : ℕ) → IsForest m p → m ≤ fuel → IsJoined fuel m p i j
unfolding join
join-IsJoined fuel m p i j forest le =
    let (a, (d, small, at)) = forest i in
    let one = root-IsFound fuel d p i a at (omega (arith, small, le)) in
    let (b, (e, small', at')) = forest j in
    let (e1, le1, at1) = one.kept e j b at' in
    let two = root-IsFound fuel e1 one.parents j b at1 (omega (arith, le1, small', le)) in
    let (d1, n1, up1) = one.kept d i a at in
    let (d2, n2, up2) = two.kept d1 i a up1 in
    let (e2, n3, up3) = two.kept e1 j b at1 in
    record {
      parents = attach a b two.parents;
      answer = rw (one.answer, two.answer) refl;
      first = a;
      second = b;
      above_first = (d, small, at);
      above_second = (e, small', at');
      moved = λ f k r h.
          let (f1, l1, h1) = one.kept f k r h in
          let (f2, l2, h2) = two.kept f1 k r h1 in
          let (g, l3, h3) =
            attach-moved two.parents a b (root_fixed two.parents d2 i a up2)
              (root_fixed two.parents e2 j b up3) f2 k r h2 in
          (g, omega (arith, l1, l2, l3), h3);
    }
