-- ===== src/Conversations/Isolated.antt =====
-- The links that `related` of crates/imail-core/src/messages/conversation.rs follows, and ambiguous
-- identifiers.
use i_mail.Base.{
  ℕ, suc, ◌+◌, ◌≡◌, ◌⊎◌, refl, sym, ◌∙◌, ap, subst, inl, inr, true, false, some, List, [], ◌∷◌,
  ◌++◌, get_elem?, Any, here, there, Bool-cases, contradict, arith,
}
use mathlib.Core.Option.{some-injective}
use i_mail.Base.Texts.{Text}
use i_mail.Conversations.Union.{Link}
use i_mail.Conversations.Linked.{IsIn, IsConnected, alone, shared, turn, chain}
use i_mail.Conversations.Related.{
  Message, contains_text, is_ambiguous, id_of, named_ids, links_from, all_links, links_of,
}

-- The link comes from a message of the list, which is not ambiguous, and names one of its identifiers,
-- which is not ambiguous either.
pub record IsLink (ambiguous : List Text) (n : ℕ) (ms : List Message) (l : Link) : Type 0 where
  pub offset : ℕ
  pub place : l.0 ≡ n + offset
  pub message : Message
  pub at : get_elem? ms offset ≡ some message
  pub clear : is_ambiguous ambiguous (id_of message) ≡ false
  pub listed : Any (λ id. id ≡ l.1) (named_ids message)
  pub usable : contains_text l.1 ambiguous ≡ false

Any-cases : {A : Type 0} (P : A → Type 0) (x : A) (xs : List A) → Any P (x ∷ xs) → P x ⊎ Any P xs
Any-cases P x xs (here h) = inl h
Any-cases P x xs (there a) = inr a

links_from-Any :
    (ambiguous : List Text) (index : ℕ) (ids : List Text) (l : Link)
    → IsIn l (links_from ambiguous index ids)
    → (l.0 ≡ index) × (Any (λ id. id ≡ l.1) ids × (contains_text l.1 ambiguous ≡ false))
links_from-Any ambiguous index [] l a = elim a [ ]
links_from-Any ambiguous index (id ∷ ids) l a = elim (Bool-cases (contains_text id ambiguous)) [
  | inl t ↦
      (let (e, (listed, usable)) = links_from-Any ambiguous index ids l (rw t at a) in
        (e, (there listed, usable)))
  | inr t ↦ elim (Any-cases (λ x. x ≡ l) (index, id) (links_from ambiguous index ids) (rw t at a)) [
    | inl e ↦ (
      sym (ap (λ x. x.0) e),
      (here (ap (λ x. x.1) e), subst (λ x. contains_text x.1 ambiguous ≡ false) e t),
    )
    | inr b ↦
        (let (e, (listed, usable)) = links_from-Any ambiguous index ids l b in
          (e, (there listed, usable)))
  ]
]

Any-append-cases :
    {A : Type 0} (P : A → Type 0) (xs ys : List A) → Any P (xs ++ ys) → Any P xs ⊎ Any P ys
Any-append-cases P [] ys a = inr a
Any-append-cases P (x ∷ xs) ys (here h) = inl (here h)
Any-append-cases P (x ∷ xs) ys (there a) = elim (Any-append-cases P xs ys a) [
  | inl b ↦ inl (there b)
  | inr b ↦ inr b
]

next_message :
    (ambiguous : List Text) (n : ℕ) (m : Message) (ms : List Message) (l : Link)
    → IsLink ambiguous (suc n) ms l
    → IsLink ambiguous n (m ∷ ms) l
next_message ambiguous n m ms l h =
    let moved : suc n + h.offset ≡ n + suc h.offset = omega arith in
    record {
      offset = suc h.offset;
      place = h.place ∙ moved;
      message = h.message;
      at = h.at;
      clear = h.clear;
      listed = h.listed;
      usable = h.usable;
    }

all_links-IsLink :
    (ambiguous : List Text) (n : ℕ) (ms : List Message) (l : Link)
    → IsIn l (all_links ambiguous n ms)
    → IsLink ambiguous n ms l
all_links-IsLink ambiguous n [] l a = elim a [ ]
all_links-IsLink ambiguous n (m ∷ ms) l a = elim (Bool-cases (is_ambiguous ambiguous (id_of m))) [
  | inl t ↦ next_message ambiguous n m ms l (all_links-IsLink ambiguous (suc n) ms l (rw t at a))
  | inr t ↦
      elim (Any-append-cases (λ x. x ≡ l) (links_from ambiguous n (named_ids m))
        (all_links ambiguous (suc n) ms) (rw t at a)) [
          | inr b ↦ next_message ambiguous n m ms l (all_links-IsLink ambiguous (suc n) ms l b)
          | inl b ↦
              (let (e, (listed, usable)) = links_from-Any ambiguous n (named_ids m) l b in
                record {
                  offset = 0;
                  place = (let z : n ≡ n + 0 = omega arith in e ∙ z);
                  message = m;
                  at = refl;
                  clear = t;
                  listed = listed;
                  usable = usable;
                })
        ]
]

-- What no link names stands alone.
unlinked_alone :
    (links : List Link) (k : ℕ)
    → ((id : Text) → IsIn (k, id) links → ⊥)
    → (i j : ℕ) → IsConnected links i j
    → (i ≡ k → j ≡ k) × (j ≡ k → i ≡ k)
unlinked_alone links k apart i j alone = (λ e. e, λ e. e)
unlinked_alone links k apart i j (shared id a b) = (
  λ e. absurd (apart id (subst (λ x. IsIn (x, id) links) e a)),
  λ e. absurd (apart id (subst (λ x. IsIn (x, id) links) e b)),
)
unlinked_alone links k apart i j (turn c) =
    let (f, g) = unlinked_alone links k apart j i c in (g, f)
unlinked_alone links k apart i j (chain {j = v} c c') =
    let (f, g) = unlinked_alone links k apart i v c in
    let (f', g') = unlinked_alone links k apart v j c' in (λ e. f' (f e), λ e. g (g' e))

-- A message whose own identifier is ambiguous is connected with no other message.
pub ambiguous_alone :
    (ambiguous : List Text) (ms : List Message) (k j : ℕ) (m : Message)
    → get_elem? ms k ≡ some m
    → is_ambiguous ambiguous (id_of m) ≡ true
    → IsConnected (links_of ambiguous ms) k j
    → j ≡ k
unfolding links_of
ambiguous_alone ambiguous ms k j m e t c =
    (unlinked_alone (links_of ambiguous ms) k none_of k j c).0 refl
  where
    none_of : (id : Text) → IsIn (k, id) (all_links ambiguous 0 ms) → ⊥
    none_of id a =
        let l = all_links-IsLink ambiguous 0 ms (k, id) a in
        let place : k ≡ l.offset = (let z : 0 + l.offset ≡ l.offset = omega arith in l.place ∙ z) in
        let same : m ≡ l.message =
          some-injective m l.message (sym e ∙ ap (get_elem? ms) place ∙ l.at) in
        contradict (is_ambiguous ambiguous (id_of m)) t
          (subst (λ x. is_ambiguous ambiguous (id_of x) ≡ false) (sym same) l.clear)
