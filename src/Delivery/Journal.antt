-- ===== src/Delivery/Journal.antt =====
-- `recordAttempt`, `discrepancy` and `rejectedRounds` of backend/src/delivery/delivery.service.ts:
-- the evidence that a pass writes, and what it reads back of it.
use hh_game_market_backend.Base.{
  ℕ, Bool, true, false, ◌&&◌, ◌||◌, Option, none, some, [], ◌∷◌, ◌++◌, ◌==◌, if◌then◌else◌, any,
  count,
}
use hh_game_market_backend.Model.{
  AttemptOutcome, DiscrepancyKind, duplicate_code, unbooked_code, kind_eq, RequestId, request_eq,
  OrderItem, DeliveryAttempt, SupplierDiscrepancy, Db, Result, Action,
}

unfoldable pub record_attempt : OrderItem → ℕ → RequestId → ℕ → AttemptOutcome → Action Unit
record_attempt item supplier request attempt outcome db =
    let row : DeliveryAttempt = record {
      order_id = item.order_id;
      order_item_id = item.id;
      supplier = supplier;
      request_id = request;
      attempt = attempt;
      outcome = outcome;
    } in
    (Result.ok tt, record db { attempts = db.attempts ++ row ∷ [] })

-- The unique key (supplier, request_id, kind).
abbrev pub same_finding : SupplierDiscrepancy → SupplierDiscrepancy → Bool
same_finding a b =
    a.supplier == b.supplier && request_eq a.request_id b.request_id && kind_eq a.kind b.kind

-- `.orIgnore()`: a finding already there stays as it is. Says whether the row is new.
unfoldable pub insert_discrepancy : SupplierDiscrepancy → Action Bool
insert_discrepancy row db =
    if any (same_finding row) db.discrepancies
    then (Result.ok false, db)
    else (Result.ok true, record db { discrepancies = db.discrepancies ++ row ∷ [] })

unfoldable pub discrepancy :
    ℕ → RequestId → ℕ → DiscrepancyKind → (supplier_code : ℕ) (our_code : Option ℕ) → Action Bool
unfolding insert_discrepancy
discrepancy supplier request item_id kind supplier_code our_code = insert_discrepancy (record {
  supplier = supplier;
  request_id = request;
  order_item_id = some item_id;
  kind = kind;
  supplier_code = some supplier_code;
  our_code = our_code;
})

abbrev for_item : ℕ → Option ℕ → Bool
for_item id none = false
for_item id (some j) = j == id

-- Is this row a code of that supplier, for that item, that was not accepted?
abbrev pub is_rejection : ℕ → ℕ → SupplierDiscrepancy → Bool
is_rejection item_id supplier d =
    for_item item_id d.order_item_id
    && d.supplier == supplier
    && (kind_eq d.kind duplicate_code || kind_eq d.kind unbooked_code)

abbrev pub rejected_rounds : ℕ → ℕ → Db → ℕ
rejected_rounds item_id supplier db = count (is_rejection item_id supplier) db.discrepancies
