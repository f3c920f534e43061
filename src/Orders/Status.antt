-- ===== src/Orders/Status.antt =====
-- mobile/src/lib/hyperliquid/order.ts: what the exchange answers of an order, normalized.
use Prim.Native.String.{◌++◌, len, slice, find}
use hyper_solid.Prelude.{
  ℕ, ◌-◌, String, Bool, ◌&&◌, ◌||◌, ◌≡◌, refl, ap, ◌⊎◌, inl, inr, Option, none, some, get_or, [],
  ◌∷◌, All, Dict, lookup, string_eq, ◌==◌, ltb, leb, Bool-cases, if◌then◌else◌,
}
use hyper_solid.Intents.Ledger.{
  IntentStatus, OrderStatusKind, is_resting, is_filled, is_rejected, is_canceled, is_waiting,
  is_unknown, NormalizedStatus, intent_status_from_kind,
}

-- `REJECTION_MESSAGES`
abbrev pub rejection_messages : Dict String String
rejection_messages =
    ("tickRejected", "价格不符合最小变动单位（tick）规则")
    ∷ ("minTradeNtlRejected", "订单名义价值低于最小 $10")
    ∷ ("sizeRejected", "数量无效或低于最小下单量")
    ∷ ("priceRejected", "价格无效")
    ∷ ("perpMarginRejected", "保证金不足")
    ∷ ("reduceOnlyRejected", "仅减仓订单不能增加仓位")
    ∷ ("badAloPxRejected", "ALO（只挂单）价格会立即成交")
    ∷ ("badTriggerPxRejected", "触发价位于错误一侧")
    ∷ ("iocCancelRejected", "IOC 订单未成交被取消")
    ∷ ("oracleRejected", "价格偏离预言机过大")
    ∷ ("builderFeeRejected", "Builder 返佣费率超出上限（perps 0.1% / spot 1%）")
    ∷ ("unknownAsset", "未找到该交易对（asset 未知）")
    ∷ []

-- `STATUS_MESSAGES`
abbrev pub status_messages : Dict String String
status_messages =
    ("open", "订单已挂单")
    ∷ ("filled", "订单已成交")
    ∷ ("canceled", "订单已取消")
    ∷ ("triggered", "触发单已激活")
    ∷ ("rejected", "订单被拒绝")
    ∷ ("marginCanceled", "保证金不足，订单已取消")
    ∷ ("reduceOnlyCanceled", "仅减仓限制，订单已取消")
    ∷ ("siblingFilledCanceled", "配对的 TP/SL 已成交，另一腿已取消")
    ∷ ("scheduledCancel", "计划撤单（dead-man switch）已触发")
    ∷ ("openInterestCapCanceled", "持仓量已达上限，订单已取消")
    ∷ ("liquidatedCanceled", "账户被清算，订单已取消")
    ∷ []

-- `rejectionMessage`
abbrev pub rejection_message : String → String
rejection_message code = get_or (lookup code rejection_messages) ("订单被拒绝（" ++ (code ++ "）"))

-- `messageForCode`
abbrev pub message_for_code : String → Option String
message_for_code code = elim (lookup code rejection_messages) [
  | none ↦ lookup code status_messages
  | some message ↦ some message
]

abbrev pub ends_with : String → String → Bool
ends_with s t = leb (len t) (len s) && slice s (len s - len t) (len s) == t

abbrev pub includes : String → String → Bool
includes s t = ltb (find s t) (len s)

-- `kindForCode`
abbrev pub kind_for_code : String → OrderStatusKind
kind_for_code code =
    if ends_with code "Rejected"
    then is_rejected
    else if ends_with code "Canceled" || (code == "canceled" || code == "scheduledCancel")
    then is_canceled
    else if code == "filled"
    then is_filled
    else if code == "open" || (code == "resting" || code == "triggered")
    then is_resting
    else is_unknown

-- A status as it comes: a bare code, or an object by the first of its fields that counts.
pub data RawStatus : Type 0 where
  bare : String → RawStatus
  resting : Option ℕ → Option String → RawStatus
  filled : Option ℕ → Option String → Option String → Option String → RawStatus
  waiting_for_fill : RawStatus
  waiting_for_trigger : RawStatus
  error : String → RawStatus
  other : RawStatus

abbrev pub plain : OrderStatusKind → String → NormalizedStatus
plain kind message = record {
  kind = kind;
  message = message;
  code = none;
  oid = none;
  cloid = none;
  total_sz = none;
  avg_px = none;
}

abbrev pub coded : String → OrderStatusKind → String → NormalizedStatus
coded code kind message = record (plain kind message) { code = some code }

-- `lower` is `toLowerCase`.
module _ (lower : String → String) where
  abbrev pub first_code : String → Dict String String → Option String
  first_code text [] = none
  first_code text ((code, message) ∷ rest) =
      if includes text (lower code) then some code else first_code text rest

  abbrev pub or_minimum : String → Option String → Option String
  or_minimum text (some found) = some found
  or_minimum text none =
      if includes (lower text) "minimum value" then some "minTradeNtlRejected" else none

  unfoldable pub rejection_code_from_error : String → Option String
  rejection_code_from_error text = or_minimum text (first_code (lower text) rejection_messages)

  abbrev pub of_error : String → Option String → NormalizedStatus
  of_error text none = plain is_rejected text
  of_error text (some code) = coded code (kind_for_code code) (get_or (message_for_code code) "")

  abbrev pub of_code : String → Option String → NormalizedStatus
  of_code code (some message) = coded code (kind_for_code code) message
  of_code code none = coded code is_unknown ("未知订单状态（" ++ (code ++ "）"))

  unfoldable pub normalize_order_status : RawStatus → NormalizedStatus
  unfolding rejection_code_from_error
  normalize_order_status (RawStatus.bare c) = of_code c (message_for_code c)
  normalize_order_status (RawStatus.resting oid cloid) = record (plain is_resting "订单已挂单") {
    oid = oid;
    cloid = cloid;
  }
  normalize_order_status (RawStatus.filled oid cloid total_sz avg_px) =
      record (plain is_filled "订单已成交") {
        oid = oid;
        cloid = cloid;
        total_sz = total_sz;
        avg_px = avg_px;
      }
  normalize_order_status RawStatus.waiting_for_fill = plain is_waiting "等待成交"
  normalize_order_status RawStatus.waiting_for_trigger = plain is_waiting "等待触发价"
  normalize_order_status (RawStatus.error text) = of_error text (rejection_code_from_error text)
  normalize_order_status RawStatus.other = plain is_unknown "未知订单状态"

  -- A code that says that the order failed, or nothing.
  abbrev Failed : String → Type 0
  Failed c = (kind_for_code c ≡ is_rejected) ⊎ (kind_for_code c ≡ is_unknown)

  codes-Failed : All (λ kv. Failed kv.0) rejection_messages
  codes-Failed = (
    inl refl,
    (
      inl refl,
      (
        inl refl,
        (
          inl refl,
          (
            inl refl,
            (inl refl, (inl refl, (inl refl, (inl refl, (inl refl, (inl refl, (inr refl, tt))))))),
          ),
        ),
      ),
    ),
  )

  abbrev FailedIf : Option String → Type 0
  FailedIf none = Unit
  FailedIf (some c) = Failed c

  first_code-Failed :
      (text : String) (codes : Dict String String)
      → All (λ kv. Failed kv.0) codes
      → FailedIf (first_code text codes)
  first_code-Failed text [] all = tt
  first_code-Failed text ((k, m) ∷ codes) (own, all) = elim (Bool-cases (includes text (lower k))) [
    | inl found ↦ rw found own
    | inr past ↦ rw past (first_code-Failed text codes all)
  ]

  or_minimum-Failed :
      (text : String) (o : Option String) → FailedIf o → FailedIf (or_minimum text o)
  or_minimum-Failed text (some c) h = h
  or_minimum-Failed text none h = elim (Bool-cases (includes (lower text) "minimum value")) [
    | inl small ↦ rw small (inl refl)
    | inr large ↦ rw large tt
  ]

  abbrev Lost : OrderStatusKind → Type 0
  Lost kind =
      (intent_status_from_kind kind ≡ IntentStatus.rejected)
      ⊎ (intent_status_from_kind kind ≡ IntentStatus.submitted)

  of_error-Lost : (text : String) (o : Option String) → FailedIf o → Lost (of_error text o).kind
  of_error-Lost text none h = inl refl
  of_error-Lost text (some c) (inl e) = inl (ap intent_status_from_kind e)
  of_error-Lost text (some c) (inr e) = inr (ap intent_status_from_kind e)

  -- An error is never taken for an order that lives: whatever its text, the ledger marks the order as
  -- rejected, or leaves it as submitted, still to be settled.
  pub error_not_live :
      (text : String)
      → (let kind = (normalize_order_status (RawStatus.error text)).kind in
          (intent_status_from_kind kind ≡ IntentStatus.rejected)
          ⊎ (intent_status_from_kind kind ≡ IntentStatus.submitted))
  unfolding normalize_order_status
  error_not_live text =
      of_error-Lost text (rejection_code_from_error text)
        (or_minimum-Failed text _ (first_code-Failed (lower text) rejection_messages codes-Failed))
