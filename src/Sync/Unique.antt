-- ===== src/Sync/Unique.antt =====
-- The constraints of the table `sync_jobs`: its primary key, its unique index on active targets, and
-- what a lease is.
use i_mail.Base.{
  String, ◌≡◌, sym, subst, true, false, Bool, ◌&&◌, ◌||◌, is_some, str_eq, List, All, arith,
}
use i_mail.Base.Unique.{IsUnique, IsCalm}
use i_mail.Sync.Types.{SyncJob, is_active, is_running, or_empty}

-- The identifier and the target.
abbrev pub Key : Type 0
Key = String × String × String × String

abbrev pub key : SyncJob → Key
key j = (j.id, j.account_id, or_empty j.mailbox, j.mailbox_role)

abbrev pub key_clash : Key → Key → Bool → Bool → Bool
key_clash (id, account, mailbox, role) (id', account', mailbox', role') active active' =
    str_eq id id'
    || (active
        && active'
        && str_eq account account'
        && str_eq mailbox mailbox'
        && str_eq role role')

-- Two rows that the schema does not allow beside each other.
abbrev pub clash : SyncJob → SyncJob → Bool
clash x y = key_clash (key x) (key y) (is_active x.status) (is_active y.status)

-- A row is locked exactly while it runs.
abbrev pub IsLockedRight : SyncJob → Type 0
IsLockedRight j =
    (is_running j.status ≡ is_some j.locked_by) × (is_running j.status ≡ is_some j.locked_until)

abbrev pub IsValid : List SyncJob → Type 0
IsValid jobs = IsUnique clash jobs × All IsLockedRight jobs

-- A change that keeps the key of a row and makes no row active.
abbrev pub KeepsKey : (SyncJob → Bool) → (SyncJob → SyncJob) → Type 0
KeepsKey p f =
    (x : SyncJob)
    → p x ≡ true
    → (key (f x) ≡ key x) × (is_active (f x).status ≡ true → is_active x.status ≡ true)

inactive-key_clash :
    (k l : Key) (a b c : Bool)
    → (a ≡ true → b ≡ true)
    → key_clash k l b c ≡ false
    → key_clash k l a c ≡ false
inactive-key_clash k l a b c i h = ground (arith, h)

inactive-key_clash2 :
    (k l : Key) (a b c : Bool)
    → (a ≡ true → b ≡ true)
    → key_clash k l c b ≡ false
    → key_clash k l c a ≡ false
inactive-key_clash2 k l a b c i h = ground (arith, h)

pub KeepsKey-IsCalm : (p : SyncJob → Bool) (f : SyncJob → SyncJob) → KeepsKey p f → IsCalm clash p f
KeepsKey-IsCalm p f k x y t = (
  λ h.
      subst (λ i. key_clash i (key y) (is_active (f x).status) (is_active y.status) ≡ false)
        (sym (k x t).0)
        (inactive-key_clash (key x) (key y) (is_active (f x).status) (is_active x.status)
          (is_active y.status) (k x t).1 h),
  λ h.
      subst (λ i. key_clash (key y) i (is_active y.status) (is_active (f x).status) ≡ false)
        (sym (k x t).0)
        (inactive-key_clash2 (key y) (key x) (is_active (f x).status) (is_active x.status)
          (is_active y.status) (k x t).1 h),
)
