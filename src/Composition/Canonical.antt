-- ===== src/Composition/Canonical.antt =====
-- The form of a normalized message identifier.
use i_mail.Base.{
  ℕ, true, Option, none, some, [], ◌∷◌, ◌++◌, all, ◌≡◌, refl, ◌∙◌, subst, ap, inl, inr, Bool-cases,
  arith,
}
use mathlib.Core.Option.{some-injective}
use i_mail.Base.Texts.{Text, trim, trim_end, push_end, is_whitespace}
use i_mail.Composition.Identifiers.{
  normalize_message_id, checked_id, inner_id, is_id, is_id_char, is_graphic, bracket, strip_suffix,
}

push_end-append : (c d : ℕ) (s : Text) → push_end c (s ++ d ∷ []) ≡ c ∷ s ++ d ∷ []
unfolding push_end
push_end-append c d [] = refl
push_end-append c d (e ∷ s) = refl

trim_end-append : (s : Text) → trim_end (s ++ 62 ∷ []) ≡ s ++ 62 ∷ []
unfolding push_end is_whitespace
trim_end-append [] = refl
trim_end-append (c ∷ s) = rw (trim_end-append s) (push_end-append c 62 s)

bracket-trim : (id : Text) → trim (bracket id) ≡ bracket id
unfolding is_whitespace
bracket-trim id = trim_end-append (60 ∷ id)

strip_suffix-append : (d : ℕ) (s : Text) → strip_suffix d (s ++ d ∷ []) ≡ some s
strip_suffix-append d [] = ground arith
strip_suffix-append d (c ∷ []) = ground arith
strip_suffix-append d (c ∷ e ∷ s) = rw (strip_suffix-append d (e ∷ s)) refl

inner_id-bracket : (id : Text) → inner_id (bracket id) ≡ some id
inner_id-bracket id = strip_suffix-append 62 id

-- What is returned is a checked identifier in brackets.
checked_id-some :
    (o : Option Text) (t : Text)
    → checked_id o ≡ some t
    → (id : Text) × (is_id id ≡ true) × (bracket id ≡ t)
checked_id-some none t h = cc
checked_id-some (some id) t h = elim (Bool-cases (is_id id)) [
  | inl e ↦ (id, e, some-injective (bracket id) t (rw e at h))
  | inr e ↦ (let k : ◌≡◌ {A = Option Text} none (some t) = rw e at h in cc)
]

normalize-bracket :
    (id : Text) → is_id id ≡ true → normalize_message_id (bracket id) ≡ some (bracket id)
unfolding normalize_message_id
normalize-bracket id e =
    let f : checked_id (inner_id (trim (bracket id))) ≡ checked_id (some id) =
      ap checked_id (ap inner_id (bracket-trim id) ∙ inner_id-bracket id) in
    f ∙ rw e refl

all-graphic : (s : Text) → all is_id_char s ≡ true → all is_graphic (s ++ 62 ∷ []) ≡ true
all-graphic [] h = refl
all-graphic (c ∷ s) h = ground (arith, h, all-graphic s)

is_id_chars : (id : Text) → is_id id ≡ true → all is_id_char id ≡ true
is_id_chars id e = ground (arith, e)

-- What `normalize_message_id` returns is canonical: normalizing it again returns it unchanged, and
-- each of its characters is a visible ASCII character, so it can break no header line.
pub normalize_message_id-canonical :
    (v t : Text)
    → normalize_message_id v ≡ some t
    → (normalize_message_id t ≡ some t) × (all is_graphic t ≡ true)
unfolding normalize_message_id
normalize_message_id-canonical v t h =
    let (id, e, b) = checked_id-some (inner_id (trim v)) t h in
    let chars = is_id_chars id e in
    (
      subst (λ u. normalize_message_id u ≡ some u) b (normalize-bracket id e),
      subst (λ u. all is_graphic u ≡ true) b (all-graphic id chars),
    )
