-- ===== src/Conversations/United.antt =====
-- The whole loop over the links of crates/imail-core/src/messages/conversation.rs.
use i_mail.Base.{
  ℕ, zero, suc, ◌+◌, ◌≤◌, ◌≡◌, ◌⊎◌, refl, sym, ◌∙◌, ap, subst, inl, inr, some, List, [], ◌∷◌,
  length, here, there, Option-cases, arith,
}
use mathlib.Core.Option.{some-injective}
use i_mail.Conversations.Union.{Link, Forest, first_of, link, link_found, link_all, separate, ◌>>=◌}
use i_mail.Conversations.Forest.{IsRoot, root_unique}
use i_mail.Conversations.Joined.{IsForest, join-IsJoined}
use i_mail.Conversations.Linked.{
  IsIn, IsConnected, alone, shared, turn, chain, IsSame, IsLinked, new-IsLinked, joined-IsLinked,
}

-- What is known of more links holds of fewer.
fewer :
    (links : List Link) (D E : Link → Type 0) (m : ℕ) (s : Forest)
    → ((x : Link) → E x → D x)
    → IsLinked links D m s
    → IsLinked links E m s
fewer links D E m s f h = record {
  forest = h.forest;
  sound = h.sound;
  known = λ x e. h.known x (f x e);
  named = h.named;
}

link-IsLinked :
    (fuel : ℕ) (links : List Link) (Done : Link → Type 0) (m : ℕ) (l : Link) (s : Forest)
    → IsIn l links
    → IsLinked links Done m s
    → m ≤ fuel
    → (s' : Forest) × ((link fuel l s ≡ some s')
        × IsLinked links (λ x. Done x ⊎ (x ≡ l)) (suc m) s')
unfolding link
link-IsLinked fuel links Done m l s member h le = elim (Option-cases (first_of l.1 s.identifiers)) [
  | inl e ↦ (
    record s { identifiers = l ∷ s.identifiers },
    (ap (link_found fuel l s) e, new-IsLinked links Done m l member s h e),
  )
  | inr (o, e) ↦
      let j = join-IsJoined fuel m s.parents l.0 o.0 h.forest le in
      (
        record s { parents = j.parents },
        (
          ap (link_found fuel l s) e
              ∙ ap (λ q. q >>= λ p. some (record s { parents = p })) j.answer,
          joined-IsLinked links Done m l member s h fuel o e j,
        ),
      )
]

link_all-IsLinked :
    (fuel : ℕ) (links : List Link) (Done : Link → Type 0) (m : ℕ) (rest : List Link) (s : Forest)
    → ((x : Link) → IsIn x rest → IsIn x links)
    → IsLinked links Done m s
    → m + length rest ≤ fuel
    → (s' : Forest) × ((link_all fuel rest s ≡ some s')
        × IsLinked links (λ x. Done x ⊎ IsIn x rest) (m + length rest) s')
unfolding link_all
link_all-IsLinked fuel links Done m [] s sub h le = (
  s,
  (
    refl,
    subst (λ n. IsLinked links (λ x. Done x ⊎ IsIn x []) n s) (omega arith)
        (fewer links Done (λ x. Done x ⊎ IsIn x []) m s
          (λ x e. elim e [ inl d ↦ d | inr a ↦ elim a [ ] ]) h),
  ),
)
link_all-IsLinked fuel links Done m (l ∷ rest) s sub h le =
    let (s1, (e, one)) =
      link-IsLinked fuel links Done m l s (sub l (here refl)) h (omega (arith, le)) in
    let (s2, (e', all)) =
      link_all-IsLinked fuel links (λ x. Done x ⊎ (x ≡ l)) (suc m) rest s1 (λ x a. sub x (there a))
        one (omega (arith, le)) in
    let steps : suc m + length rest ≡ m + suc (length rest) = omega arith in
    (
      s2,
      (
        ap (λ q. q >>= λ s'. link_all fuel rest s') e ∙ e',
        subst (λ n. IsLinked links (λ x. Done x ⊎ IsIn x (l ∷ rest)) n s2) steps
            (fewer links (λ x. (Done x ⊎ (x ≡ l)) ⊎ IsIn x rest) (λ x. Done x ⊎ IsIn x (l ∷ rest))
              (suc m + length rest) s2 (λ x e. place x e) all),
      ),
    )
  where
    place : (x : Link) → Done x ⊎ IsIn x (l ∷ rest) → (Done x ⊎ (x ≡ l)) ⊎ IsIn x rest
    place x (inl d) = inl (inl d)
    place x (inr (here e)) = inl (inr (sym e))
    place x (inr (there a)) = inr a

-- The trees of the connected parts.
pub record IsUnited (links : List Link) (s : Forest) : Type 0 where
  pub forest : IsForest (length links) s.parents
  pub sound : (i j : ℕ) → IsSame s.parents i j → IsConnected links i j
  pub complete : (i j : ℕ) → IsConnected links i j → IsSame s.parents i j

linked_complete :
    (links : List Link) (m : ℕ) (s : Forest)
    → IsLinked links (λ x. IsIn x links) m s
    → (i j : ℕ) → IsConnected links i j
    → IsSame s.parents i j
linked_complete links m s h i j alone = let (r, (d, le, at)) = h.forest i in (r, ((d, at), (d, at)))
linked_complete links m s h i j (shared id a b) =
    let (o, (found, (r, (up, up')))) = h.known (i, id) a in
    let (v, (found', (t, ((d, at), (e, at'))))) = h.known (j, id) b in
    let same : o ≡ v = some-injective o v (sym found ∙ found') in
    let (f, there_) = up' in
    let unique =
      (root_unique s.parents e f o.0 t r (subst (λ x. IsRoot s.parents e x.0 t) (sym same) at')
        there_).1 in
    (r, (up, (d, subst (λ x. IsRoot s.parents d j x) unique at)))
linked_complete links m s h i j (turn c) =
    let (r, (up, up')) = linked_complete links m s h j i c in (r, (up', up))
linked_complete links m s h i k (chain {j = j} c c') =
    let (r, (up, (d, at))) = linked_complete links m s h i j c in
    let (t, ((e, at'), (f, up'))) = linked_complete links m s h j k c' in
    let unique = (root_unique s.parents e d j t r at' at).1 in
    (r, (up, (f, subst (λ x. IsRoot s.parents f k x) unique up')))

linked_sound :
    (links : List Link) (D : Link → Type 0) (m : ℕ) (s : Forest)
    → IsLinked links D m s
    → (i j : ℕ) → IsSame s.parents i j
    → IsConnected links i j
linked_sound links D m s h i j (r, ((d, at), (e, at'))) =
    chain (h.sound d i r at) (turn (h.sound e j r at'))

-- With one unit of fuel for each link the loop over the links ends, and then two messages have one root
-- exactly when they are connected.
pub link_all-IsUnited :
    (fuel : ℕ) (links : List Link)
    → length links ≤ fuel
    → (s : Forest) × ((link_all fuel links separate ≡ some s) × IsUnited links s)
link_all-IsUnited fuel links le =
    let start : IsLinked links (λ x. ⊥) 0 separate = record {
      forest = λ k. (k, (0, omega arith, (refl, refl)));
      sound = λ d k r g. subst (λ x. IsConnected links k x) (at_once d k r g) alone;
      known = λ x e. elim e [ ];
      named = λ id o e. cc;
    } in
    let (s, (e, h)) =
      link_all-IsLinked fuel links (λ x. ⊥) 0 links separate (λ x a. a) start (omega (arith, le)) in
    let done =
      fewer links (λ x. ⊥ ⊎ IsIn x links) (λ x. IsIn x links) (0 + length links) s (λ x a. inr a)
        h in
    (
      s,
      (
        e,
        record {
          forest = subst (λ n. IsForest n s.parents) (omega arith) done.forest;
          sound = linked_sound links (λ x. IsIn x links) (0 + length links) s done;
          complete = linked_complete links (0 + length links) s done;
        },
      ),
    )
  where
    at_once : (d k r : ℕ) → IsRoot (λ i. i) d k r → k ≡ r
    at_once zero k r g = g.0
    at_once (suc d) k r g = absurd (g.0 refl)
