-- ===== src/Conversations/Union.antt =====
-- `root` and the loop over the links of `related` in crates/imail-core/src/messages/conversation.rs: a
-- union of trees by parent indices. The vector of parents starts as the identity on the indices of the
-- messages, and the code reads and writes it at those indices and at what it holds there, so it is a
-- function from indices to indices.
use i_mail.Base.{ℕ, zero, suc, true, false, Option, none, some, List, [], ◌∷◌, if◌then◌else◌, ◌==◌}
use i_mail.Base.Table.{find_where}
use i_mail.Base.Texts.{Text, text_eq}

abbrev pub Parents : Type 0
Parents = ℕ → ℕ

-- parents[i] = v
abbrev pub assign : Parents → ℕ → ℕ → Parents
assign p i v k = if k == i then v else p k

-- parents[index] = parents[parents[index]]
abbrev pub halve : Parents → ℕ → Parents
halve p i = assign p i (p (p i))

infixl 5 ◌>>=◌
abbrev pub ◌>>=◌ : {A B : Type 0} → Option A → (A → Option B) → Option B
none >>= f = none
some a >>= f = f a

-- The loop, on fuel: the root, and the parents with the paths that it halved; none where the fuel ends.
unfoldable pub root : ℕ → Parents → ℕ → Option (ℕ × Parents)
root zero p i = elim (p i == i) [ true ↦ some (i, p) | false ↦ none ]
root (suc fuel) p i = elim (p i == i) [
  | true ↦ some (i, p)
  | false ↦ root fuel (halve p i) (halve p i i)
]

-- if a != b { parents[a] = b }
abbrev pub attach : ℕ → ℕ → Parents → Parents
attach a b p = if a == b then p else assign p a b

unfoldable pub join : ℕ → Parents → ℕ → ℕ → Option Parents
join fuel p i other = do (a, p1) ← root fuel p i; (b, p2) ← root fuel p1 other; some (attach a b p2)

-- A link: the index of a message, and an identifier that it names.
abbrev pub Link : Type 0
Link = ℕ × Text

-- `identifiers`: the message that named an identifier first.
abbrev pub first_of : Text → List Link → Option Link
first_of id ids = find_where (λ l. text_eq l.1 id) ids

pub record Forest : Type 0 where
  pub parents : Parents
  pub identifiers : List Link

abbrev pub link_found : ℕ → Link → Forest → Option Link → Option Forest
link_found fuel l s none = some (record s { identifiers = l ∷ s.identifiers })
link_found fuel l s (some other) = do
  p ← join fuel s.parents l.0 other.0
  some (record s { parents = p })

-- The body of the loop over the links.
unfoldable pub link : ℕ → Link → Forest → Option Forest
link fuel l s = link_found fuel l s (first_of l.1 s.identifiers)

unfoldable pub link_all : ℕ → List Link → Forest → Option Forest
link_all fuel [] s = some s
link_all fuel (l ∷ ls) s = do s' ← link fuel l s; link_all fuel ls s'

abbrev pub separate : Forest
separate = record { parents = λ i. i; identifiers = [] }
