-- ===== src/Conversations/Grouped.antt =====
-- `related` of crates/imail-core/src/messages/conversation.rs against connectivity.
use i_mail.Base.{
  ℕ, ◌+◌, ◌≤◌, ◌≡◌, ◌⊎◌, refl, ◌∙◌, ap, subst, inl, inr, Bool, true, false, Option, none, some,
  List, length, get_elem?, All, All-map, Any, Option-cases, arith,
}
use i_mail.Base.Sorting.{
  sort_by, IsSorted, sort_by-IsSorted, sort_by-All, sort_by-Any, text_before_asym,
  text_before_trans, text_eq-sym, equal_not_before, equal_between,
}
use i_mail.Base.Texts.{Text}
use i_mail.Base.Json.{Value}
use i_mail.Conversations.Union.{Parents, Link, ◌>>=◌}
use i_mail.Conversations.Forest.{root_unique, root-IsFound}
use i_mail.Conversations.Linked.{IsConnected, IsAbove}
use i_mail.Conversations.United.{link_all-IsUnited}
use i_mail.Conversations.Related.{
  Message, is_earlier, position_from, links_of, group_of, group_at, ambiguous_ids, related,
}
use i_mail.Conversations.Selected.{
  IsAbove-kept, IsUnder, kept-IsAbove, kept-IsForest, select_under-IsSelection,
}

is_earlier-asym : (a b : Message) → is_earlier a b ≡ true → is_earlier b a ≡ false
is_earlier-asym a b h = ground (
  arith,
  h,
  text_before_asym a.date b.date,
  text_before_asym a.id b.id,
  equal_not_before a.date b.date,
  equal_not_before b.date a.date,
  text_eq-sym a.date b.date,
)

is_earlier_trans :
    (a b c : Message) → is_earlier b a ≡ false → is_earlier c b ≡ false → is_earlier c a ≡ false
is_earlier_trans a b c h k = ground (
  arith,
  h,
  k,
  text_before_trans a.date b.date c.date,
  text_before_trans a.id b.id c.id,
  equal_between a.date b.date c.date,
)

-- The conversation of the message at `index`.
pub record IsConversation (links : List Link) (ms : List Message) (index : ℕ)
    (result : List Message) : Type 0 where
  -- Every message of the result is a message of the list that is connected with the one at `index`.
  pub members : All (λ x. (k : ℕ) × ((get_elem? ms k ≡ some x) × IsConnected links k index)) result
  -- Every connected message of the list is in the result.
  pub complete :
      (k : ℕ) (x : Message)
      → get_elem? ms k ≡ some x
      → IsConnected links k index
      → Any (λ y. y ≡ x) result
  pub sorted : IsSorted is_earlier result

from_zero : (p : Parents) (k r : ℕ) → IsAbove p (0 + k) r → IsAbove p k r
from_zero p k r h = (let e : 0 + k ≡ k = omega arith in subst (λ j. IsAbove p j r) e h)

to_zero : (p : Parents) (k r : ℕ) → IsAbove p k r → IsAbove p (0 + k) r
to_zero p k r h = (let e : k ≡ 0 + k = omega arith in subst (λ j. IsAbove p j r) e h)

group_of-IsConversation :
    (fuel : ℕ) (links : List Link) (ms : List Message) (index : ℕ)
    → length links ≤ fuel
    → (result : List Message) × ((group_of fuel links ms index ≡ some result)
        × IsConversation links ms index result)
unfolding group_of
group_of-IsConversation fuel links ms index le =
    let (s, (e, united)) = link_all-IsUnited fuel links le in
    let p = s.parents in
    let (top, (d, small, at)) = united.forest index in
    let found = root-IsFound fuel d p index top at (omega (arith, small, le)) in
    let q = found.parents in
    let n = length links in
    let sel =
      select_under-IsSelection fuel top n q 0 ms (kept-IsForest n p q united.forest found.kept)
        le in
    (
      sort_by is_earlier sel.result,
      (
        rw (e, found.answer, sel.answer) refl,
        record {
          members =
              sort_by-All is_earlier
                (λ x. (k : ℕ) × ((get_elem? ms k ≡ some x) × IsConnected links k index)) sel.result
                (All-map (IsUnder q top 0 ms)
                  (λ x. (k : ℕ) × ((get_elem? ms k ≡ some x) × IsConnected links k index))
                  (λ x (k, (g, up)). (
                    k,
                    (
                      g,
                      united.sound k index (
                        top,
                        (
                          IsAbove-kept n p q united.forest found.kept k top (from_zero q k top up),
                          (d, at),
                        ),
                      ),
                    ),
                  ))
                  sel.result sel.members);
          complete = λ k x g c.
              let (r, (up, (f, at'))) = united.complete k index c in
              let same = (root_unique p f d index r top at' at).1 in
              sort_by-Any is_earlier (λ y. y ≡ x) sel.result
                (sel.complete k x g (
                  to_zero q k top (
                    kept-IsAbove n p q united.forest found.kept k top
                      (subst (λ y. IsAbove p k y) same up))));
          sorted = sort_by-IsSorted is_earlier is_earlier-asym is_earlier_trans sel.result;
        },
      ),
    )

-- The answers of `related`: no message under the identifier, or the conversation of the first one.
abbrev pub IsAnswer : (Value → Value → Bool) → (Text → Option Text) → List Message → Text → Type 0
IsAnswer value_eq fingerprints ms selected =
    let answer = related value_eq fingerprints ms selected in
    ((position_from 0 selected ms ≡ none) × (answer ≡ some none))
    ⊎ ((index : ℕ) × ((position_from 0 selected ms ≡ some index)
          × ((result : List Message) × ((answer ≡ some (some result))
                × IsConversation (links_of (ambiguous_ids value_eq fingerprints ms) ms) ms index
                    result))))

-- With one unit of fuel for each link, `related` ends: it answers with none where no message has the
-- identifier, and otherwise with the list, in the order of dates and identifiers, of exactly those
-- messages that a chain of shared identifiers connects with the first message that has it.
pub related-IsConversation :
    (value_eq : Value → Value → Bool) (fingerprints : Text → Option Text) (ms : List Message)
    (selected : Text)
    → IsAnswer value_eq fingerprints ms selected
unfolding related
related-IsConversation value_eq fingerprints ms selected =
    let ambiguous = ambiguous_ids value_eq fingerprints ms in
    elim (Option-cases (position_from 0 selected ms)) [
      | inl e ↦ inl (e, ap (group_at ambiguous ms) e)
      | inr (index, e) ↦
          let links = links_of ambiguous ms in
          let (result, (g, h)) =
            group_of-IsConversation (length links) links ms index (omega arith) in
          inr (
            index,
            (e, (result, (ap (group_at ambiguous ms) e ∙ ap (λ q. q >>= λ r. some (some r)) g, h))),
          )
    ]
