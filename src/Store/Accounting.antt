-- ===== src/Store/Accounting.antt =====
-- Cash, cost basis and realised profit in a fill of app/cd90_live_copy.py.
use Prim.Native.String.{String}
use text.Mathlib.TextPositions.{eq_refl}
use polymarket_live_copy.Prelude.{◌≡◌, refl, ap, ◌∙◌, some, Result, ok, ◌>>=◌, arith, subst, sym}
use polymarket_live_copy.Prelude.Int.{◌+ℤ◌, ◌-ℤ◌, int_laws}
use polymarket_live_copy.Prelude.Table.{lookup}
use polymarket_live_copy.Decimal.{Context, Decimal, decimal_zero, mul}
use polymarket_live_copy.Decimal.Laws.{Held, add_exact, sub_exact}
use polymarket_live_copy.Sizing.{Side, buy, sell, other_side}
use polymarket_live_copy.Store.{StoreError, SourceAction, Account, Position, Ledger}
use polymarket_live_copy.Store.Fills.{
  Fill, Books, position_of, book_buy, average_cost, write_sale, book_sell, book, open_books,
  write_books, apply_fill, fill_notional,
}
use polymarket_live_copy.Store.Finalize.{Closing, apply_fill_and_finalize}
use polymarket_live_copy.Store.Closing.{SameBooks, apply_fill_and_finalize-IsPosted}
use polymarket_live_copy.Store.Positions.{apply_fill-IsFilled, posted_position}

-- The worth of the books at cost, less what has been realised.
abbrev pub at_cost : Books → Decimal
at_cost b = b.account.cash_usd +ℤ b.position.cost_basis_usd -ℤ b.account.realized_pnl_usd

-- The context holds every sum and difference of the posting: nothing is rounded. `sold` is the
-- cost basis that leaves the position.
pub record IsExact (c : Context) (notional fee sold : Decimal) (b : Books) : Type 0 where
  pub total : Held c (notional +ℤ fee)
  pub cash_out : Held c (b.account.cash_usd -ℤ (notional +ℤ fee))
  pub cost_in : Held c (b.position.cost_basis_usd +ℤ (notional +ℤ fee))
  pub proceeds : Held c (notional -ℤ fee)
  pub cash_in : Held c (b.account.cash_usd +ℤ (notional -ℤ fee))
  pub profit : Held c (notional -ℤ fee -ℤ sold)
  pub realized : Held c (b.account.realized_pnl_usd +ℤ (notional -ℤ fee -ℤ sold))
  pub cost_out : Held c (b.position.cost_basis_usd -ℤ sold)

module _ (c : Context) (n : Decimal) (f : Fill) (b : Books) (sold : Decimal)
    (x : IsExact c n f.fee_usd sold b) where
  book_buy-at_cost : at_cost (book_buy c n f b) ≡ at_cost b
  unfolding book_buy
  book_buy-at_cost =
      rw (add_exact c n f.fee_usd x.total, sub_exact c _ _ x.cash_out, add_exact c _ _ x.cost_in)
        (omega int_laws)

  write_sale-at_cost : at_cost (write_sale c n f sold b) ≡ at_cost b
  unfolding write_sale
  write_sale-at_cost =
      rw
        (
          sub_exact c n f.fee_usd x.proceeds,
          add_exact c _ _ x.cash_in,
          sub_exact c _ _ x.profit,
          add_exact c _ _ x.realized,
          sub_exact c _ _ x.cost_out,
        )
        (omega int_laws)

-- The cost basis that the fill takes off the position.
unfoldable pub cost_sold : Context → Side → Fill → Position → Result StoreError Decimal
cost_sold c sell f p = do average ← average_cost c p; ok (mul c average f.quantity)
cost_sold c _ f p = ok decimal_zero

book-at_cost :
    (c : Context) (side : Side) (n : Decimal) (f : Fill) (b : Books) (sold : Decimal) {b' : Books}
    → cost_sold c side f b.position ≡ ok sold
    → IsExact c n f.fee_usd sold b
    → book c side n f b ≡ ok b'
    → at_cost b' ≡ at_cost b
unfolding book book_sell cost_sold
book-at_cost c buy n f b sold s x e = ground (arith, book_buy-at_cost c n f b sold x)
book-at_cost c sell n f b sold s x e =
    ground (arith, average_cost c b.position, write_sale-at_cost c n f b sold x)
book-at_cost c other_side n f b sold s x e = cc

-- What a ledger's account and the position in a token are worth at cost.
pub record HasWorth (token : String) (worth : Decimal) (l : Ledger) : Type 0 where
  pub account : Account
  pub position : Position
  pub account_value : l.account ≡ some account
  pub position_value : lookup token l.positions ≡ some position
  pub worth_value : account.cash_usd +ℤ position.cost_basis_usd -ℤ account.realized_pnl_usd ≡ worth

write_books-account :
    (c : Context) (source : SourceAction) (b : Books) (l : Ledger)
    → (write_books c source b l).account ≡ some b.account
unfolding write_books
write_books-account c source b l = refl

apply_fill-HasWorth :
    (c : Context) (source : SourceAction) (f : Fill) (l l' : Ledger) (a : Account)
    (n sold : Decimal)
    → l.account ≡ some a
    → fill_notional c f ≡ ok n
    → cost_sold c source.side f (open_books c source a l).position ≡ ok sold
    → IsExact c n f.fee_usd sold (open_books c source a l)
    → apply_fill c source f l ≡ ok l'
    → HasWorth source.token_id (at_cost (open_books c source a l)) l'
apply_fill-HasWorth c source f l l' a n sold ea en es x e =
    let w = apply_fill-IsFilled c source f e in
    let same_n : w.notional ≡ n = ground (arith, w.notional_value) in
    let same_a : w.account ≡ a = ground (arith, w.account_value) in
    record {
      account = w.books.account;
      position = w.books.position;
      account_value = ap (λ t. t.account) w.result ∙ write_books-account c source w.books l;
      position_value = posted_position c source f w source.token_id ∙ rw (eq_refl source.token_id);
      worth_value =
          book-at_cost c source.side n f (open_books c source a l) sold es x
            (rw (same_n, same_a) at w.booked);
    }

open_books_same :
    (c : Context) (source : SourceAction) (a : Account) {l l' : Ledger}
    → SameBooks l l'
    → open_books c source a l' ≡ open_books c source a l
unfolding open_books
open_books_same c source a same = rw (same.positions, same.reservations)

cost_sold_of :
    (c : Context) (side : Side) (f : Fill) (p : Position) (condition : String)
    → cost_sold c side f (record p { condition_id = condition }) ≡ cost_sold c side f p
unfolding cost_sold average_cost
cost_sold_of c buy f p condition = refl
cost_sold_of c sell f p condition = refl
cost_sold_of c other_side f p condition = refl

cost_sold_open :
    (c : Context) (source : SourceAction) (f : Fill) (a : Account) (l : Ledger)
    → cost_sold c source.side f (open_books c source a l).position
      ≡ cost_sold c source.side f (position_of (lookup source.token_id l.positions))
unfolding open_books
cost_sold_open c source f a l =
    cost_sold_of c source.side f (position_of (lookup source.token_id l.positions)) _

-- Where the context holds the sums of the posting exactly, a fill that is applied, BUY or SELL,
-- leaves the cash plus the cost basis of the position less the realised profit as it was.
pub fill_conserves_cost :
    (c : Context) (source : SourceAction) (f : Fill) (k : Closing) (l l' : Ledger) (a : Account)
    (n sold : Decimal)
    → l.account ≡ some a
    → fill_notional c f ≡ ok n
    → cost_sold c source.side f (position_of (lookup source.token_id l.positions)) ≡ ok sold
    → IsExact c n f.fee_usd sold (open_books c source a l)
    → apply_fill_and_finalize c source f k l ≡ ok l'
    → HasWorth source.token_id
        (a.cash_usd
          +ℤ (position_of (lookup source.token_id l.positions)).cost_basis_usd
          -ℤ a.realized_pnl_usd)
        l'
unfolding open_books
fill_conserves_cost c source f k l l' a n sold ea en es x e =
    let w = apply_fill_and_finalize-IsPosted c source f k e in
    let same = open_books_same c source a w.opened in
    let v =
      apply_fill-HasWorth c source f w.before w.after a n sold (w.opened.account ∙ ea) en
        (ap (λ b. cost_sold c source.side f b.position) same ∙ cost_sold_open c source f a l ∙ es)
        (subst (IsExact c n f.fee_usd sold) (sym same) x) w.posted in
    record {
      account = v.account;
      position = v.position;
      account_value = w.closed.account ∙ v.account_value;
      position_value = ap (lookup source.token_id) w.closed.positions ∙ v.position_value;
      worth_value = v.worth_value ∙ ap at_cost same;
    }
