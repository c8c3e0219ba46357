-- ===== src/Store/Fills.antt =====
-- `_apply_fill_on_connection` of app/cd90_live_copy.py.
use Prim.Native.String.{String}
use text.Mathlib.Text.{◌==◌}
use polymarket_live_copy.Prelude.{
  Bool, not, ◌&&◌, ◌||◌, Option, none, some, Result, ok, raise, raise_if, or_raise, ◌>>=◌, ◌>>◌,
  if◌then◌else◌, ◌==◌ as nat_eq,
}
use polymarket_live_copy.Prelude.Int.{leb_ℤ, ltb_ℤ}
use polymarket_live_copy.Prelude.Table.{lookup, upsert, update}
use polymarket_live_copy.Decimal.{Context, Decimal, decimal_zero, add, sub, mul, div, magnitude}
use polymarket_live_copy.Sizing.{Side, buy, sell, other_side}
use polymarket_live_copy.Store.{
  StoreError, invalid_reconciled_fill, invalid_reconciled_fill_price,
  invalid_reconciled_fill_notional, account_not_initialized, position_condition_ownership_mismatch,
  position_ledger_underflow, unsupported_fill_side, invalid_operation, SourceAction, Account,
  Position, Reservation, Ledger, release,
}

-- A reconciled fill.
pub record Fill : Type 0 where
  pub quantity : Decimal
  pub price : Option Decimal
  pub fee_usd : Decimal
  pub notional_usd : Option Decimal

-- What a fill does to the account and to the position in its token.
pub record Books : Type 0 where
  pub account : Account
  pub position : Position

abbrev no_position : Position
no_position = record { quantity = decimal_zero; cost_basis_usd = decimal_zero; condition_id = "" }

abbrev pub position_of : Option Position → Position
position_of none = no_position
position_of (some p) = p

abbrev pub condition_of : Option Reservation → String
condition_of none = ""
condition_of (some r) = r.condition_id

module _ (c : Context) where
  -- The two conditions that are known differ.
  unfoldable pub conditions_clash : String → String → Bool
  conditions_clash existing fill =
      not (existing == "") && not (fill == "") && not (existing == fill)

  -- `existing_condition_id or fill_condition_id`
  unfoldable pub owner_condition : String → String → String
  owner_condition existing fill = if existing == "" then fill else existing

  unfoldable pub fill_notional : Fill → Result StoreError Decimal
  fill_notional f = elim f.notional_usd [
    | some n ↦ if leb_ℤ n decimal_zero then raise invalid_reconciled_fill_notional else ok n
    | none ↦ elim f.price [
      | none ↦ raise invalid_reconciled_fill_price
      | some p ↦
          if leb_ℤ p decimal_zero
          then raise invalid_reconciled_fill_price
          else ok (mul c f.quantity p)
    ]
  ]

  unfoldable pub book_buy : Decimal → Fill → Books → Books
  book_buy notional f b =
      let total = add c notional f.fee_usd in
      record {
        account = record b.account {
          cash_usd = sub c b.account.cash_usd total;
          fees_usd = add c b.account.fees_usd f.fee_usd;
        };
        position = record b.position {
          quantity = add c b.position.quantity f.quantity;
          cost_basis_usd = add c b.position.cost_basis_usd total;
        };
      }

  -- `decimal_zero if held == decimal_zero else cost_basis / held`
  unfoldable pub average_cost : Position → Result StoreError Decimal
  average_cost p =
      if nat_eq (magnitude p.quantity) 0
      then ok decimal_zero
      else or_raise (div c p.cost_basis_usd p.quantity) invalid_operation

  unfoldable pub write_sale : Decimal → Fill → Decimal → Books → Books
  write_sale notional f sold b =
      let proceeds = sub c notional f.fee_usd in
      record {
        account = record b.account {
          cash_usd = add c b.account.cash_usd proceeds;
          realized_pnl_usd = add c b.account.realized_pnl_usd (sub c proceeds sold);
          fees_usd = add c b.account.fees_usd f.fee_usd;
        };
        position = record b.position {
          quantity = sub c b.position.quantity f.quantity;
          cost_basis_usd = sub c b.position.cost_basis_usd sold;
        };
      }

  unfoldable pub book_sell : Decimal → Fill → Books → Result StoreError Books
  book_sell notional f b = do
    raise_if (ltb_ℤ b.position.quantity f.quantity) position_ledger_underflow
    average ← average_cost b.position
    ok (write_sale notional f (mul c average f.quantity) b)

  unfoldable pub book : Side → Decimal → Fill → Books → Result StoreError Books
  book buy notional f b = ok (book_buy notional f b)
  book sell notional f b = book_sell notional f b
  book other_side notional f b = raise unsupported_fill_side

  -- The three writes. The condition of a position that has one is kept by the database too.
  unfoldable pub write_books : SourceAction → Books → Ledger → Ledger
  write_books source b l = record l {
    account = some b.account;
    positions = upsert source.token_id b.position l.positions;
    reservations = update source.action_id release l.reservations;
  }

  -- The account and the position before the fill, the position under its owner's condition.
  unfoldable pub open_books : SourceAction → Account → Ledger → Books
  open_books source account l =
      let position = position_of (lookup source.token_id l.positions) in
      record {
        account = account;
        position = record position {
          condition_id =
              owner_condition position.condition_id
                (condition_of (lookup source.action_id l.reservations));
        };
      }

  -- What follows once the account has been read.
  unfoldable pub post_fill :
      SourceAction → Fill → Decimal → Account → Ledger → Result StoreError Ledger
  post_fill source f notional account l = do
    raise_if
        (conditions_clash (position_of (lookup source.token_id l.positions)).condition_id
          (condition_of (lookup source.action_id l.reservations)))
        position_condition_ownership_mismatch
    books ← book source.side notional f (open_books source account l)
    ok (write_books source books l)

  unfoldable pub apply_fill : SourceAction → Fill → Ledger → Result StoreError Ledger
  apply_fill source f l = do
    raise_if (leb_ℤ f.quantity decimal_zero || ltb_ℤ f.fee_usd decimal_zero) invalid_reconciled_fill
    notional ← fill_notional f
    account ← or_raise l.account account_not_initialized
    post_fill source f notional account l
