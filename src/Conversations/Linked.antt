-- ===== src/Conversations/Linked.antt =====
-- One link in the loop of crates/imail-core/src/messages/conversation.rs, and chains of shared identifiers.
use i_mail.Base.{
  ℕ, suc, ◌≡◌, ◌⊎◌, refl, sym, ◌∙◌, ap, subst, inl, inr, Option, none, some, List, ◌∷◌, Any,
  Bool-cases, arith,
}
use mathlib.Core.Option.{some-injective}
use i_mail.Base.Texts.{Text, text_eq, text_eq_sound, text_eq_refl}
use i_mail.Conversations.Union.{Parents, Link, Forest, first_of}
use i_mail.Conversations.Forest.{IsRoot, root_unique, nat-cases, test_true, test_false}
use i_mail.Conversations.Joined.{IsForest, moved_root, IsJoined}

abbrev pub IsIn : Link → List Link → Type 0
IsIn l ls = Any (λ x. x ≡ l) ls

-- A chain of messages, of which neighbours name one identifier.
pub data IsConnected (links : List Link) : ℕ → ℕ → Type 0 where
  alone : {i : ℕ} → IsConnected links i i
  shared : {i j : ℕ} (id : Text) → IsIn (i, id) links → IsIn (j, id) links → IsConnected links i j
  turn : {i j : ℕ} → IsConnected links i j → IsConnected links j i
  chain : {i j k : ℕ} → IsConnected links i j → IsConnected links j k → IsConnected links i k

abbrev pub IsAbove : Parents → ℕ → ℕ → Type 0
IsAbove p k r = (d : ℕ) × IsRoot p d k r

-- One root is above both.
abbrev pub IsSame : Parents → ℕ → ℕ → Type 0
IsSame p i j = (r : ℕ) × (IsAbove p i r × IsAbove p j r)

-- The state between two rounds, when the links of `Done` have been read.
pub record IsLinked (links : List Link) (Done : Link → Type 0) (m : ℕ) (s : Forest) : Type 0 where
  pub forest : IsForest m s.parents
  pub sound : (d k r : ℕ) → IsRoot s.parents d k r → IsConnected links k r
  pub known :
      (l : Link)
      → Done l
      → (o : Link) × ((first_of l.1 s.identifiers ≡ some o) × IsSame s.parents l.0 o.0)
  pub named : (id : Text) (o : Link) → first_of id s.identifiers ≡ some o → IsIn (o.0, id) links

moved_root-first : (a b : ℕ) → moved_root a b a ≡ b
moved_root-first a b = rw (test_true a a refl) refl

moved_root-second : (a b : ℕ) → moved_root a b b ≡ b
moved_root-second a b = elim (nat-cases b a) [
  | inl e ↦ rw (test_true b a e) refl
  | inr n ↦ rw (test_false b a n) refl
]

module _ (links : List Link) (Done : Link → Type 0) (m : ℕ) (l : Link) (member : IsIn l links)
    (s : Forest) (h : IsLinked links Done m s) where
  -- The identifier is named for the first time.
  pub new-IsLinked :
      first_of l.1 s.identifiers ≡ none
      → IsLinked links
          (λ x. Done x ⊎ (x ≡ l))
          (suc m)
          (record s { identifiers = l ∷ s.identifiers })
  new-IsLinked e = record {
    forest = λ k. let (r, (d, le, at)) = h.forest k in (r, (d, omega (arith, le), at));
    sound = h.sound;
    known = known;
    named = named;
  }
    where
      known :
          (x : Link)
          → Done x ⊎ (x ≡ l)
          → (o : Link) × ((first_of x.1 (l ∷ s.identifiers) ≡ some o) × IsSame s.parents x.0 o.0)
      known x (inl done) =
          let (o, (found, same)) = h.known x done in
          elim (Bool-cases (text_eq l.1 x.1)) [
            | inl t ↦
                (let k : ◌≡◌ {A = Option Link} none (some o) =
                    sym e
                    ∙ ap (λ id. first_of id s.identifiers) (text_eq_sound l.1 x.1 t)
                    ∙ found in
                  cc)
            | inr f ↦ (o, (rw f found, same))
          ]
      known x (inr same) =
          let (r, (d, le, at)) = h.forest l.0 in
          subst
            (λ y.
              (o : Link) × ((first_of y.1 (l ∷ s.identifiers) ≡ some o) × IsSame s.parents y.0 o.0))
            (sym same) (l, (rw (text_eq_refl l.1) refl, (r, ((d, at), (d, at)))))

      named :
          (id : Text) (o : Link) → first_of id (l ∷ s.identifiers) ≡ some o → IsIn (o.0, id) links
      named id o f = elim (Bool-cases (text_eq l.1 id)) [
        | inl t ↦
            (let one : l ≡ o = some-injective l o (rw t at f) in
              let two : l.1 ≡ id = text_eq_sound l.1 id t in
              subst (λ y. IsIn (y.0, id) links) one (subst (λ y. IsIn (l.0, y) links) two member))
        | inr t ↦ h.named id o (rw t at f)
      ]

  -- The identifier was named by the message `o`.
  pub joined-IsLinked :
      (fuel : ℕ) (o : Link)
      → first_of l.1 s.identifiers ≡ some o
      → (j : IsJoined fuel m s.parents l.0 o.0)
      → IsLinked links (λ x. Done x ⊎ (x ≡ l)) (suc m) (record s { parents = j.parents })
  joined-IsLinked fuel o e j = record {
    forest = λ k.
        let (r, (d, le, at)) = h.forest k in
        let (d', le', at') = j.moved d k r at in
        (moved_root j.first j.second r, (d', omega (arith, le, le'), at'));
    sound = sound;
    known = known;
    named = h.named;
  }
    where
      -- The two roots that were brought together are connected.
      bridge : IsConnected links j.first j.second
      bridge =
          let (d, le, up) = j.above_first in
          let (d', le', up') = j.above_second in
          chain (turn (h.sound d l.0 j.first up))
            (chain (shared l.1 member (h.named l.1 o e)) (h.sound d' o.0 j.second up'))

      sound : (d k r : ℕ) → IsRoot j.parents d k r → IsConnected links k r
      sound d k r g =
          let (r', (d', le, at)) = h.forest k in
          let (d'', le', at') = j.moved d' k r' at in
          let unique = (root_unique j.parents d'' d k (moved_root j.first j.second r') r at' g).1 in
          subst (λ x. IsConnected links k x) unique
            (elim (nat-cases r' j.first) [
              | inl same ↦
                  rw (test_true r' j.first same)
                    (chain (subst (λ x. IsConnected links k x) same (h.sound d' k r' at)) bridge)
              | inr n ↦ rw (test_false r' j.first n) (h.sound d' k r' at)
            ])

      moved :
          (k r : ℕ) → IsAbove s.parents k r → IsAbove j.parents k (moved_root j.first j.second r)
      moved k r (d, at) = (let (d', le, at') = j.moved d k r at in (d', at'))

      joined : IsSame j.parents l.0 o.0
      joined =
          let (d, le, up) = j.above_first in
          let (d', le', up') = j.above_second in
          (
            j.second,
            (
              subst (λ x. IsAbove j.parents l.0 x) (moved_root-first j.first j.second)
                  (moved l.0 j.first (d, up)),
              subst (λ x. IsAbove j.parents o.0 x) (moved_root-second j.first j.second)
                  (moved o.0 j.second (d', up')),
            ),
          )

      known :
          (x : Link)
          → Done x ⊎ (x ≡ l)
          → (v : Link) × ((first_of x.1 s.identifiers ≡ some v) × IsSame j.parents x.0 v.0)
      known x (inl done) =
          let (v, (found, (r, (up, up')))) = h.known x done in
          (v, (found, (moved_root j.first j.second r, (moved x.0 r up, moved v.0 r up'))))
      known x (inr same) =
          subst
            (λ y. (v : Link) × ((first_of y.1 s.identifiers ≡ some v) × IsSame j.parents y.0 v.0))
            (sym same) (o, (e, joined))
