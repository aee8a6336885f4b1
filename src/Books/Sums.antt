-- ===== src/Books/Sums.antt =====
-- How the sums of `Books` move when one item changes its status, and under a new posting.
use hh_game_market_backend.Base.{
  ℕ, ◌+◌, ◌≡◌, refl, true, false, ◌&&◌, some, List, [], ◌∷◌, ◌++◌, ◌==◌, if◌then◌else◌, arith,
}
use hh_game_market_backend.Base.Keyed.{update_where, has, find_by, Distinct, sum_where-update}
use hh_game_market_backend.Base.Int.{pos, pos_part, neg_part, ◌+ℤ◌, +ℤ_parts, int_laws}
use hh_game_market_backend.Model.{
  ItemStatus, item_status_eq, item_status_eq_refl, ItemExtra, LedgerAccount, account_eq, OrderItem,
  LedgerEntry,
}
use hh_game_market_backend.Transition.{item_in, set_item}
use hh_game_market_backend.Transition.Facts.{item_id}
use hh_game_market_backend.Books.{in_status, owned, posted}

-- The contribution of one item to the sum of a status.
abbrev pub weight : ℕ → ItemStatus → ItemStatus → OrderItem → ℕ
weight k s status i = if i.order_id == k && item_status_eq status s then i.amount else 0

-- A transition leaves an item's key, owner and amount alone.
pub set_item_keeps :
    (to : ItemStatus) (extra : ItemExtra) (i : OrderItem)
    → ((set_item to extra i).id ≡ i.id)
      × ((set_item to extra i).order_id ≡ i.order_id)
      × ((set_item to extra i).amount ≡ i.amount)
set_item_keeps to ItemExtra.nothing i = (refl, refl, refl)
set_item_keeps to (ItemExtra.refund_reason r) i = (refl, refl, refl)

module _ (x : ℕ) (from to : ItemStatus) (extra : ItemExtra) (items : List OrderItem) (i : OrderItem)
    (keys : Distinct item_id items) (found : find_by item_id x items ≡ some i)
    (same : i.status ≡ from) where
  guard_holds : item_status_eq i.status from ≡ true
  guard_holds = rw same (item_status_eq_refl from)

  pub in_status-move :
      (k : ℕ) (s : ItemStatus)
      → in_status k s (update_where (item_in x from) (set_item to extra) items) + weight k s from i
        ≡ in_status k s items + weight k s to i
  in_status-move k s =
      let (_, owner, amount) = set_item_keeps to extra i in
      let moved =
        sum_where-update item_id (λ r. item_status_eq r.status from) (set_item to extra) x
          (λ r. r.order_id == k && item_status_eq r.status s) (λ r. r.amount) items i keys found
          guard_holds in
      rw (owner, amount, same) at moved

  pub owned-move :
      (k : ℕ) → owned k (update_where (item_in x from) (set_item to extra) items) ≡ owned k items
  owned-move k =
      let (_, owner, amount) = set_item_keeps to extra i in
      let moved =
        sum_where-update item_id (λ r. item_status_eq r.status from) (set_item to extra) x
          (λ r. r.order_id == k) (λ r. r.amount) items i keys found guard_holds in
      omega (arith, rw (owner, amount) at moved)

pub posted-snoc :
    (k : ℕ) (a : LedgerAccount) (ledger : List LedgerEntry) (e : LedgerEntry)
    → posted k a (ledger ++ e ∷ [])
      ≡ posted k a ledger +ℤ (if e.order_id == k && account_eq e.account a then e.amount else pos 0)
posted-snoc k a [] e = omega int_laws
posted-snoc k a (d ∷ ledger) e = rw (posted-snoc k a ledger e) (omega int_laws)

-- The same over the parts of the integers.
pub posted-snoc_parts :
    (k : ℕ) (a : LedgerAccount) (ledger : List LedgerEntry) (e : LedgerEntry)
    → let x = if e.order_id == k && account_eq e.account a then e.amount else pos 0 in
      pos_part (posted k a (ledger ++ e ∷ [])) + neg_part (posted k a ledger) + neg_part x
      ≡ neg_part (posted k a (ledger ++ e ∷ [])) + pos_part (posted k a ledger) + pos_part x
posted-snoc_parts k a ledger e = rw (posted-snoc k a ledger e) (+ℤ_parts _ _)

pub posted-absent :
    (k : ℕ) (a : LedgerAccount) (ledger : List LedgerEntry)
    → has (λ (e : LedgerEntry). e.order_id) k ledger ≡ false
    → posted k a ledger ≡ pos 0
posted-absent k a [] h = refl
posted-absent k a (d ∷ ledger) h =
    let here : (d.order_id == k) ≡ false = ground arith in
    rw here (rw (posted-absent k a ledger (ground arith)) (omega int_laws))

pub in_status-absent :
    (k : ℕ) (s : ItemStatus) (items : List OrderItem)
    → has (λ (i : OrderItem). i.order_id) k items ≡ false
    → in_status k s items ≡ 0
in_status-absent k s [] h = refl
in_status-absent k s (i ∷ items) h = ground (arith, in_status-absent k s items)

pub owned-absent :
    (k : ℕ) (items : List OrderItem)
    → has (λ (i : OrderItem). i.order_id) k items ≡ false
    → owned k items ≡ 0
owned-absent k [] h = refl
owned-absent k (i ∷ items) h = ground (arith, owned-absent k items)

-- The four statuses share out what an order's items come to.
pub owned_split :
    (k : ℕ) (items : List OrderItem)
    → owned k items
      ≡ in_status k ItemStatus.pending items
        + in_status k ItemStatus.delivered items
        + in_status k ItemStatus.refunding items
        + in_status k ItemStatus.refunded items
owned_split k [] = omega arith
owned_split k (i ∷ items) = ground (arith, owned_split k items)
