-- ===== src/Receipts/Progress.antt =====
-- What receipts make of a notification's status: the furthest that any of them says, in whatever
-- order they come.
use mathlib.Core.List.{Perm, Permᴰ}
use mathlib.Core.Logic.{∥∥₁_elim}
use javi.Prelude.{
  ℕ, ◌≡◌, ◌≤◌, All, refl, sym, ◌∙◌, ap, arith, none, some, get_or, List, [], ◌∷◌, ltb,
  if◌then◌else◌,
}
use javi.Model.{NotificationStatus, queued, sent, delivered, read, failed}
use javi.Receipts.{Receipt, resolve_status, apply_status}

-- queued < sent < failed < delivered < read
pub rank : NotificationStatus → ℕ
rank queued = 0
rank sent = 1
rank failed = 2
rank delivered = 3
rank read = 4

-- What a receipt makes of a status.
unfoldable pub after_receipt : NotificationStatus → Receipt → NotificationStatus
after_receipt current r = elim (resolve_status r) [
  | none ↦ current
  | some new ↦ get_or (apply_status current new) current
]

further : NotificationStatus → NotificationStatus → NotificationStatus
unfolding rank
further a b = if ltb (rank a) (rank b) then b else a

pub said : Receipt → NotificationStatus
said r = get_or (resolve_status r) queued

-- `_apply` is the join of the order, for the statuses that a receipt can say.
after_receipt_lem : (s : NotificationStatus) (r : Receipt) → after_receipt s r ≡ further s (said r)
unfolding after_receipt further said apply_status resolve_status
after_receipt_lem s r = ground arith

further_assoc : (a b c : NotificationStatus) → further (further a b) c ≡ further a (further b c)
unfolding further
further_assoc a b c = ground arith

further_comm : (a b : NotificationStatus) → further a b ≡ further b a
unfolding further
further_comm a b = ground arith

further_swap : (s a b : NotificationStatus) → further (further s a) b ≡ further (further s b) a
further_swap s a b =
    further_assoc s a b ∙ ap (further s) (further_comm a b) ∙ sym (further_assoc s b a)

after_receipt_swap :
    (s : NotificationStatus) (a b : Receipt)
    → after_receipt (after_receipt s a) b ≡ after_receipt (after_receipt s b) a
after_receipt_swap s a b = simp after_receipt_lem (further_swap s (said a) (said b))

NotificationStatus-set : IsSet NotificationStatus
NotificationStatus-set = hlevel

-- The status that a batch of receipts leaves.
unfoldable pub after_receipts : NotificationStatus → List Receipt → NotificationStatus
after_receipts s [] = s
after_receipts s (r ∷ rest) = after_receipts (after_receipt s r) rest

said-le : (s : NotificationStatus) (r : Receipt) → rank (said r) ≤ rank (after_receipt s r)
unfolding further rank
said-le s r = rw after_receipt_lem (ground arith)

status-le : (s : NotificationStatus) (r : Receipt) → rank s ≤ rank (after_receipt s r)
unfolding further rank
status-le s r = rw after_receipt_lem (ground arith)

after_receipts-le :
    (s : NotificationStatus) (rs : List Receipt) → rank s ≤ rank (after_receipts s rs)
unfolding after_receipts
after_receipts-le s [] = omega arith
after_receipts-le s (r ∷ rest) =
    omega (arith, status-le s r, after_receipts-le (after_receipt s r) rest)

-- A batch never takes a status back: from queued and sent over failed to delivered and read it only
-- goes up, and it ends at least as far as each receipt says.
after_receipts-grows :
    (s : NotificationStatus) (rs : List Receipt)
    → (rank s ≤ rank (after_receipts s rs))
      × All (λ r. rank (said r) ≤ rank (after_receipts s rs)) rs
unfolding after_receipts
after_receipts-grows s [] = (omega arith, tt)
after_receipts-grows s (r ∷ rest) =
    let later = after_receipts-grows (after_receipt s r) rest in
    (omega (arith, status-le s r, later.0), (omega (arith, said-le s r, later.0), later.1))

after_receipts-permᴰ :
    (rs rs' : List Receipt)
    → Permᴰ rs rs'
    → (s : NotificationStatus) → after_receipts s rs ≡ after_receipts s rs'
unfolding after_receipts
after_receipts-permᴰ _ _ Permᴰ.nil s = refl
after_receipts-permᴰ _ _ (Permᴰ.cons {a = a} {b = b} {l₁ = l} {l₂ = m} e p) s =
    rw e (after_receipts-permᴰ l m p (after_receipt s b))
after_receipts-permᴰ _ _ (Permᴰ.swap {a = a} {b = b} {l = l} e f) s =
    rw (← e, ← f) (ap (λ t. after_receipts t l) (after_receipt_swap s a b))
after_receipts-permᴰ _ _ (Permᴰ.trans {l₁ = k} {l₂ = l} {l₃ = m} p q) s =
    after_receipts-permᴰ k l p s ∙ after_receipts-permᴰ l m q s

-- Receipts may come in any order: a batch and its permutation leave the same status.
pub after_receipts-perm :
    (s : NotificationStatus) (rs rs' : List Receipt)
    → Perm rs rs'
    → after_receipts s rs ≡ after_receipts s rs'
after_receipts-perm s rs rs' p =
    ∥∥₁_elim p (NotificationStatus-set _ _) (λ d. after_receipts-permᴰ rs rs' d s)
