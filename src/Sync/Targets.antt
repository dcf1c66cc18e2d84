-- ===== src/Sync/Targets.antt =====
-- Which mailbox state stands for a target.
use i_mail.Base.{
  ℕ, ◌≤◌, ◌≡◌, refl, Bool, true, false, not, ◌&&◌, ◌||◌, Option, none, some, List, All, All-refl,
  All-map, Any, String, str_eq, str_eq_sound, eq_refl, &&-eq-true, contradict, arith,
}
use i_mail.Base.Selection.{first_where-best, first_where-All, first_where-none, first_where-Any}
use i_mail.Base.Table.{first_where}
use i_mail.Base.Texts.{like_prefix}
use i_mail.Sync.Types.{MailboxSyncState, SyncStore}
use i_mail.Sync.Finish.{later_attempt}
use i_mail.Sync.Reads.{is_target_mailbox, is_placeholder, is_better_state, mailbox_state_for_target}

-- One success is no later than another; that there is none comes first.
abbrev pub IsNoLater : Option ℕ → Option ℕ → Type 0
IsNoLater none b = Unit
IsNoLater (some a) none = ⊥
IsNoLater (some a) (some b) = a ≤ b

-- A row `m` is as good as a row `z`: it stands for a real mailbox where `z` does, and where both
-- or neither do, the success of `z` is no later.
abbrev pub IsTop : MailboxSyncState → MailboxSyncState → Type 0
IsTop m z =
    (like_prefix "@role:" m.mailbox ≡ true → like_prefix "@role:" z.mailbox ≡ true)
    × (like_prefix "@role:" m.mailbox ≡ like_prefix "@role:" z.mailbox
        → IsNoLater z.last_success_at m.last_success_at)

-- A target is a mailbox, or the role where no mailbox is named.
abbrev pub IsNamed : Option String → String → MailboxSyncState → Type 0
IsNamed none role m = m.mailbox_role ≡ role
IsNamed (some mailbox) role m = m.mailbox ≡ mailbox

abbrev pub IsTargetState : String → Option String → String → MailboxSyncState → Type 0
IsTargetState account mailbox role m = (m.account_id ≡ account) × IsNamed mailbox role m

abbrev pub IsTopState :
    String → Option String → String → List MailboxSyncState → Option MailboxSyncState → Type 0
IsTopState account mailbox role states none =
    All (λ z. ¬ IsTargetState account mailbox role z) states
IsTopState account mailbox role states (some m) =
    Any (λ z. z ≡ m) states
    × IsTargetState account mailbox role m
    × All (λ z. IsTargetState account mailbox role z → IsTop m z) states

IsNoLater-refl : (a : Option ℕ) → IsNoLater a a
IsNoLater-refl none = tt
IsNoLater-refl (some a) = omega arith

IsNoLater-trans : (a b c : Option ℕ) → IsNoLater b a → IsNoLater c b → IsNoLater c a
IsNoLater-trans a b none h k = tt
IsNoLater-trans a none (some c) h k = absurd k
IsNoLater-trans none (some b) (some c) h k = absurd h
IsNoLater-trans (some a) (some b) (some c) h k = omega (arith, h, k)

later-IsNoLater : (a b : Option ℕ) → later_attempt a b ≡ true → IsNoLater b a
later-IsNoLater none b h = cc
later-IsNoLater (some a) none h = tt
later-IsNoLater (some a) (some b) h = ground (arith, h)

not_later-IsNoLater : (a b : Option ℕ) → later_attempt a b ≡ false → IsNoLater a b
not_later-IsNoLater none b h = tt
not_later-IsNoLater (some a) none h = cc
not_later-IsNoLater (some a) (some b) h = ground (arith, h)

-- Two ranks, and the order of the successes where they are the same.
abbrev ranked : Bool → Bool → Bool → Bool
ranked p q later = (not p && q) || (not (p && not q) && later)

abbrev Tops : Bool → Bool → Option ℕ → Option ℕ → Type 0
Tops p q a b = (p ≡ true → q ≡ true) × (p ≡ q → IsNoLater b a)

ranked-Tops : (p q : Bool) (a b : Option ℕ) → ranked p q (later_attempt a b) ≡ true → Tops p q a b
ranked-Tops true true a b h = (λ e. refl, λ e. later-IsNoLater a b h)
ranked-Tops true false a b h = cc
ranked-Tops false true a b h = (λ e. refl, λ e. cc)
ranked-Tops false false a b h = (λ e. e, λ e. later-IsNoLater a b h)

not_ranked-Tops :
    (p q : Bool) (a b : Option ℕ) → ranked p q (later_attempt a b) ≡ false → Tops q p b a
not_ranked-Tops true true a b h = (λ e. refl, λ e. not_later-IsNoLater a b h)
not_ranked-Tops true false a b h = (λ e. refl, λ e. cc)
not_ranked-Tops false true a b h = cc
not_ranked-Tops false false a b h = (λ e. e, λ e. not_later-IsNoLater a b h)

Tops-trans : (p q r : Bool) (a b c : Option ℕ) → Tops p q a b → Tops q r b c → Tops p r a c
Tops-trans true true true a b c h k = (λ e. e, λ e. IsNoLater-trans a b c (h.1 refl) (k.1 refl))
Tops-trans true true false a b c h k = contradict false (k.0 refl) refl
Tops-trans true false r a b c h k = contradict false (h.0 refl) refl
Tops-trans false q true a b c h k = (λ e. refl, λ e. cc)
Tops-trans false true false a b c h k = contradict false (k.0 refl) refl
Tops-trans false false false a b c h k = (λ e. e, λ e. IsNoLater-trans a b c (h.1 refl) (k.1 refl))

IsTop-refl : (m : MailboxSyncState) → IsTop m m
IsTop-refl m = (λ e. e, λ e. IsNoLater-refl m.last_success_at)

IsTop-trans : (a b c : MailboxSyncState) → IsTop a b → IsTop b c → IsTop a c
IsTop-trans a b c h k =
    Tops-trans (is_placeholder a) (is_placeholder b) (is_placeholder c) a.last_success_at
      b.last_success_at c.last_success_at h k

is_better_state-IsTop : (a b : MailboxSyncState) → is_better_state a b ≡ true → IsTop a b
is_better_state-IsTop a b h =
    ranked-Tops (is_placeholder a) (is_placeholder b) a.last_success_at b.last_success_at h

not_better-IsTop : (a b : MailboxSyncState) → is_better_state a b ≡ false → IsTop b a
not_better-IsTop a b h =
    not_ranked-Tops (is_placeholder a) (is_placeholder b) a.last_success_at b.last_success_at h

named-is_target_mailbox :
    (mailbox : Option String) (role : String) (m : MailboxSyncState)
    → IsNamed mailbox role m
    → is_target_mailbox mailbox role m ≡ true
named-is_target_mailbox none role m e = rw e (eq_refl role)
named-is_target_mailbox (some b) role m e = rw e (eq_refl b)

is_target_mailbox-IsNamed :
    (mailbox : Option String) (role : String) (m : MailboxSyncState)
    → is_target_mailbox mailbox role m ≡ true
    → IsNamed mailbox role m
is_target_mailbox-IsNamed none role m e = str_eq_sound m.mailbox_role role e
is_target_mailbox-IsNamed (some b) role m e = str_eq_sound m.mailbox b e

module _ (account : String) (mailbox : Option String) (role : String) where
  abbrev hit : MailboxSyncState → Bool
  hit m = str_eq m.account_id account && is_target_mailbox mailbox role m

  IsTargetState-hit : (m : MailboxSyncState) → IsTargetState account mailbox role m → hit m ≡ true
  IsTargetState-hit m (a, n) =
      rw (named-is_target_mailbox mailbox role m n) (rw a (rw (eq_refl account) refl))

  hit-IsTargetState : (m : MailboxSyncState) → hit m ≡ true → IsTargetState account mailbox role m
  hit-IsTargetState m h =
      let (a, n) = &&-eq-true (str_eq m.account_id account) (is_target_mailbox mailbox role m) h in
      (str_eq_sound m.account_id account a, is_target_mailbox-IsNamed mailbox role m n)

  found-IsTopState :
      (states : List MailboxSyncState) (o : Option MailboxSyncState)
      → first_where is_better_state hit states ≡ o
      → IsTopState account mailbox role states o
  found-IsTopState states none e =
      All-map _ _ (λ z f t. contradict (hit z) (IsTargetState-hit z t) f) states
        (first_where-none is_better_state hit states e)
  found-IsTopState states (some m) e = (
    first_where-Any is_better_state hit states m e,
    hit-IsTargetState m
        (first_where-All (λ z. z ≡ z) hit is_better_state states m (All-refl states) e).1,
    All-map _ _ (λ z f t. f (IsTargetState-hit z t)) states
        (first_where-best is_better_state hit IsTop IsTop-refl IsTop-trans is_better_state-IsTop
          not_better-IsTop states m e),
  )

-- `mailbox_state_for_target` finds nothing only where the account has no state of that mailbox, or of
-- that role where no mailbox is named. A state that it finds is one of those; it is no placeholder of
-- a role (a name that starts with '@role:') unless all of those are; and none of the same kind had a
-- later success.
pub mailbox_state_for_target-IsTop :
    (account : String) (mailbox : Option String) (role : String) (s : SyncStore)
    → IsTopState account mailbox role s.states (mailbox_state_for_target account mailbox role s)
unfolding mailbox_state_for_target
mailbox_state_for_target-IsTop account mailbox role s =
    found-IsTopState account mailbox role s.states
      (first_where is_better_state (hit account mailbox role) s.states) refl
