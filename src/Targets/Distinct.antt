-- ===== src/Targets/Distinct.antt =====
-- The targets of a policy of crates/imail-core/src/sync_runtime.rs: their keys, roles and mailboxes.
use i_mail.Base.{
  ℕ, String, Bool, true, false, Option, none, some, List, [], ◌∷◌, ◌++◌, any, ◌≡◌, ◌≢◌, ◌⊎◌, refl,
  sym, subst, All, All-append, All-both, inl, inr, Bool-cases, contradict, str_eq, str_eq_sound,
  eq_refl, if◌then◌else◌, get_elem?,
}
use i_mail.Base.Texts.{Text, text_eq, text_eq_refl}
use i_mail.Base.Json.{Value}
use i_mail.Base.Unique.{IsUnique, IsUnique-append}
use i_mail.Targets.Policy.{
  SyncTarget, TargetPolicy, target_key, role_target, has_key, push_target, push_folder,
  push_selected, folder_target, find_folder, texts_of, targets_for_policy,
}

abbrev pub same_key : SyncTarget → SyncTarget → Bool
same_key e t = text_eq (target_key e) (target_key t)

abbrev pub StartsWithInbox : List SyncTarget → Type 0
StartsWithInbox ts = get_elem? ts 0 ≡ some (role_target "inbox")

-- A mailbox is named exactly where the role is 'custom'.
abbrev pub IsProper : SyncTarget → Type 0
IsProper t = elim t.requested_mailbox [
  | none ↦ t.mailbox_role ≢ "custom"
  | some m ↦ t.mailbox_role ≡ "custom"
]

-- Two targets of one role are custom mailboxes, and different ones.
abbrev pub Apart : SyncTarget → SyncTarget → Type 0
Apart e t =
    e.mailbox_role ≡ t.mailbox_role
    → (e.mailbox_role ≡ "custom") × (e.requested_mailbox ≢ t.requested_mailbox)

abbrev pub Pairwise : List SyncTarget → Type 0
Pairwise [] = Unit
Pairwise (e ∷ ts) = All (Apart e) ts × Pairwise ts

abbrev pub IsDistinct : List SyncTarget → Type 0
IsDistinct ts = StartsWithInbox ts × IsUnique same_key ts × All IsProper ts

same_key_role :
    (a b : SyncTarget)
    → a.requested_mailbox ≡ b.requested_mailbox
    → a.mailbox_role ≡ b.mailbox_role
    → same_key a b ≡ true
unfolding target_key
same_key_role a b m r =
    let key = λ (o : Option Text) (role : String).
      target_key (record { mailbox_role = role; requested_mailbox = o }) in
    subst (λ o. text_eq (target_key a) (key o b.mailbox_role) ≡ true) m
      (subst (λ role. text_eq (target_key a) (key a.requested_mailbox role) ≡ true) r
        (text_eq_refl (target_key a)))

proper_mailbox :
    (role : String) (a b : Option Text)
    → IsProper (record { mailbox_role = role; requested_mailbox = a })
    → IsProper (record { mailbox_role = role; requested_mailbox = b })
    → (role ≡ "custom") ⊎ (a ≡ b)
proper_mailbox role none none h k = inr refl
proper_mailbox role none (some n) h k = absurd (h k)
proper_mailbox role (some m) b h k = inl h

proper-Apart : (e t : SyncTarget) → IsProper e → IsProper t → same_key e t ≡ false → Apart e t
proper-Apart e t h k f r =
    let differ : e.requested_mailbox ≢ t.requested_mailbox =
      λ m. contradict (same_key e t) (same_key_role e t m r) f in
    let moved =
      subst
        (λ role. IsProper (record { mailbox_role = role; requested_mailbox = t.requested_mailbox }))
        (sym r) k in
    elim (proper_mailbox e.mailbox_role e.requested_mailbox t.requested_mailbox h moved) [
      | inl c ↦ (c, differ)
      | inr m ↦ absurd (differ m)
    ]

unique-Pairwise : (ts : List SyncTarget) → IsUnique same_key ts → All IsProper ts → Pairwise ts
unique-Pairwise [] u h = tt
unique-Pairwise (e ∷ ts) u h = (
  All-both (λ t. same_key e t ≡ false) IsProper (Apart e) (λ t f k. proper-Apart e t h.0 k f) ts u.0
      h.1,
  unique-Pairwise ts u.1 h.1,
)

any-false :
    (p : SyncTarget → Bool) (xs : List SyncTarget) → any p xs ≡ false → All (λ x. p x ≡ false) xs
any-false p [] h = tt
any-false p (x ∷ xs) h = elim (Bool-cases (p x)) [
  | inl e ↦ (let k : ◌≡◌ {A = Bool} true false = rw e at h in cc)
  | inr e ↦ (e, any-false p xs (rw e at h))
]

first-append :
    (xs : List SyncTarget) (t : SyncTarget) → StartsWithInbox xs → StartsWithInbox (xs ++ t ∷ [])
first-append [] t h = cc
first-append (x ∷ xs) t h = h

push_target-IsDistinct :
    (t : SyncTarget) (ts : List SyncTarget)
    → IsProper t
    → IsDistinct ts
    → IsDistinct (push_target t ts)
push_target-IsDistinct t ts k h = elim (Bool-cases (any (has_key t) ts)) [
  | inl e ↦ rw e h
  | inr e ↦ rw e (
    first-append ts t h.0,
    IsUnique-append same_key ts t h.1 (any-false (has_key t) ts e),
    All-append IsProper ts (t ∷ []) h.2 (k, tt),
  )
]

not_custom : (role : String) → str_eq role "custom" ≡ false → role ≢ "custom"
not_custom role f q = contradict (str_eq role "custom") (rw q (eq_refl "custom")) f

-- The mailbox is named by the role that was found.
if_custom-IsProper :
    (role : String) (requested : Text)
    → IsProper (record {
      mailbox_role = role;
      requested_mailbox = if str_eq role "custom" then some requested else none;
    })
if_custom-IsProper role requested = elim (Bool-cases (str_eq role "custom")) [
  | inl e ↦ rw e (str_eq_sound role "custom" e)
  | inr e ↦ rw e (not_custom role e)
]

module _ (decode_base64 : Text → Option (List ℕ)) (to_lowercase : Text → Text) where
  push_folder-IsDistinct :
      (requested : Text) (o : Option Value) (ts : List SyncTarget)
      → IsDistinct ts
      → IsDistinct (push_folder decode_base64 to_lowercase requested o ts)
  push_folder-IsDistinct requested none ts h = h
  push_folder-IsDistinct requested (some folder) ts h =
      push_target-IsDistinct (folder_target decode_base64 to_lowercase requested folder) ts
        (if_custom-IsProper (folder_target decode_base64 to_lowercase requested folder).mailbox_role
          requested)
        h

  push_selected-IsDistinct :
      (selected : List Text) (mailboxes : Value) (ts : List SyncTarget)
      → IsDistinct ts
      → IsDistinct (push_selected decode_base64 to_lowercase selected mailboxes ts)
  push_selected-IsDistinct [] mailboxes ts h = h
  push_selected-IsDistinct (requested ∷ rest) mailboxes ts h =
      push_selected-IsDistinct rest mailboxes
        (push_folder decode_base64 to_lowercase requested (find_folder requested mailboxes) ts)
        (push_folder-IsDistinct requested (find_folder requested mailboxes) ts h)

  standard_targets :
      IsDistinct (role_target "inbox" ∷ role_target "sent" ∷ role_target "archive" ∷ [])
  unfolding target_key
  standard_targets = (
    refl,
    ((refl, (refl, tt)), ((refl, tt), (tt, tt))),
    (not_custom "inbox" refl, (not_custom "sent" refl, (not_custom "archive" refl, tt))),
  )

  inbox_target : IsDistinct (role_target "inbox" ∷ [])
  inbox_target = (refl, (tt, tt), (not_custom "inbox" refl, tt))

  targets-IsDistinct :
      (p : TargetPolicy) → IsDistinct (targets_for_policy decode_base64 to_lowercase p)
  unfolding targets_for_policy
  targets-IsDistinct p = elim (Bool-cases (str_eq p.folder_mode "standard")) [
    | inl e ↦ rw e standard_targets
    | inr e ↦ elim (Bool-cases (str_eq p.folder_mode "selected")) [
      | inl f ↦
          rw (e, f)
            (push_selected-IsDistinct (texts_of p.selected_mailboxes) p.mailboxes
              (role_target "inbox" ∷ []) inbox_target)
      | inr f ↦ rw (e, f) inbox_target
    ]
  ]

  -- Whatever the policy and the account's folders are, the targets of a policy start with the inbox
  -- and have different keys. A target names a mailbox exactly where its role is 'custom', so a folder
  -- of another role, like the inbox under its own name, is synced by its role; two targets of one role
  -- are custom and name different mailboxes.
  pub targets_for_policy-IsDistinct :
      (p : TargetPolicy)
      → IsDistinct (targets_for_policy decode_base64 to_lowercase p)
        × Pairwise (targets_for_policy decode_base64 to_lowercase p)
  targets_for_policy-IsDistinct p =
      let d = targets-IsDistinct p in
      (d, unique-Pairwise (targets_for_policy decode_base64 to_lowercase p) d.1 d.2)
