-- ===== src/Store/Positions.antt =====
-- The positions of a ledger after a fill of `_apply_fill_on_connection` in app/cd90_live_copy.py.
use Prim.Native.String.{String}
use text.Mathlib.Text.{◌==◌}
use text.Mathlib.TextPositions.{eq_refl}
use polymarket_live_copy.Prelude.{
  ◌≡◌, ap, ◌∙◌, inl, inr, none, some, ok, arith, Option-cases, Result-cases, if◌then◌else◌, subst,
  sym,
}
use polymarket_live_copy.Prelude.Int.{◌≤ℤ◌, ◌<ℤ◌}
use polymarket_live_copy.Prelude.Table.{
  Table, lookup, Each, Each-lookup, Each-upsert, lookup-upsert,
}
use polymarket_live_copy.Decimal.{Context, Decimal, decimal_zero, sub}
use polymarket_live_copy.Decimal.Laws.{add_nonneg, sub_nonneg}
use polymarket_live_copy.Sizing.{Side, buy, sell, other_side}
use polymarket_live_copy.Store.{SourceAction, Account, Position, Ledger}
use polymarket_live_copy.Store.Fills.{
  Fill, Books, position_of, fill_notional, book_buy, average_cost, write_sale, book_sell, book,
  write_books, open_books, post_fill, apply_fill,
}
use polymarket_live_copy.Store.Finalize.{Closing, apply_fill_and_finalize}
use polymarket_live_copy.Store.Closing.{apply_fill_and_finalize-IsPosted}

abbrev pub HasStock : Position → Type 0
HasStock p = decimal_zero ≤ℤ p.quantity

-- How a fill that succeeds came about.
pub record IsFilled (c : Context) (source : SourceAction) (f : Fill) (l l' : Ledger) : Type 0 where
  pub notional : Decimal
  pub account : Account
  pub books : Books
  pub quantity_pos : decimal_zero <ℤ f.quantity
  pub fee_nonneg : decimal_zero ≤ℤ f.fee_usd
  pub notional_value : fill_notional c f ≡ ok notional
  pub account_value : l.account ≡ some account
  pub booked : book c source.side notional f (open_books c source account l) ≡ ok books
  pub result : l' ≡ write_books c source books l

post_fill-eq-ok :
    (c : Context) (source : SourceAction) (f : Fill) (n : Decimal) (a : Account) (l : Ledger)
    {l' : Ledger}
    → post_fill c source f n a l ≡ ok l'
    → (b : Books) × (book c source.side n f (open_books c source a l) ≡ ok b)
      × (l' ≡ write_books c source b l)
unfolding post_fill
post_fill-eq-ok c source f n a l h =
    elim (Result-cases (book c source.side n f (open_books c source a l))) [
      | inl (e, refused) ↦ absurd (ground arith)
      | inr (b, eb) ↦ (b, eb, ground arith)
    ]

pub apply_fill-IsFilled :
    (c : Context) (source : SourceAction) (f : Fill) {l l' : Ledger}
    → apply_fill c source f l ≡ ok l'
    → IsFilled c source f l l'
unfolding apply_fill
apply_fill-IsFilled c source f {l} {l'} h = elim (Result-cases (fill_notional c f)) [
  | inl (e, refused) ↦ absurd (ground arith)
  | inr (n, en) ↦ elim (Option-cases l.account) [
    | inl missing ↦ absurd (ground arith)
    | inr (a, ea) ↦
        let (b, eb, out) = post_fill-eq-ok c source f n a l {l' = l'} (ground arith) in
        record {
          notional = n;
          account = a;
          books = b;
          quantity_pos = ground arith;
          fee_nonneg = ground arith;
          notional_value = en;
          account_value = ea;
          booked = eb;
          result = out;
        }
  ]
]

-- The position after the fill: never negative if it was not before, and never less than what is
-- sold before a SELL.
book_stock :
    (c : Context) (side : Side) (n : Decimal) (f : Fill) (b : Books) {b' : Books}
    → decimal_zero <ℤ f.quantity
    → HasStock b.position
    → book c side n f b ≡ ok b'
    → HasStock b'.position
unfolding book book_buy book_sell write_sale
book_stock c buy n f b q h e =
    ground (arith, add_nonneg c b.position.quantity f.quantity h (omega arith))
book_stock c sell n f b q h e =
    ground (arith, average_cost c b.position, sub_nonneg c b.position.quantity f.quantity)
book_stock c other_side n f b q h e = cc

no_position-HasStock : HasStock (position_of none)
no_position-HasStock = omega arith

position_of-HasStock :
    (k : String) (t : Table Position) → Each HasStock t → HasStock (position_of (lookup k t))
position_of-HasStock k t h = elim (Option-cases (lookup k t)) [
  | inl missing ↦ rw missing no_position-HasStock
  | inr (p, there) ↦ rw there (Each-lookup HasStock k t h there)
]

write_books-Each :
    (c : Context) (source : SourceAction) (b : Books) (l : Ledger)
    → Each HasStock l.positions
    → HasStock b.position
    → Each HasStock (write_books c source b l).positions
unfolding write_books
write_books-Each c source b l h p = Each-upsert HasStock source.token_id b.position l.positions h p

apply_fill-Each :
    (c : Context) (source : SourceAction) (f : Fill) (l l' : Ledger)
    → Each HasStock l.positions
    → apply_fill c source f l ≡ ok l'
    → Each HasStock l'.positions
unfolding open_books
apply_fill-Each c source f l l' h e =
    let w = apply_fill-IsFilled c source f e in
    let stock =
      book_stock c source.side w.notional f (open_books c source w.account l) w.quantity_pos
        (position_of-HasStock source.token_id l.positions h) w.booked in
    subst (λ x. Each HasStock x.positions) (sym w.result)
      (write_books-Each c source w.books l h stock)

-- A fill that is applied leaves no position negative, if none was negative before.
pub fill_keeps_inventory :
    (c : Context) (source : SourceAction) (f : Fill) (k : Closing) (l l' : Ledger)
    → Each HasStock l.positions
    → apply_fill_and_finalize c source f k l ≡ ok l'
    → Each HasStock l'.positions
fill_keeps_inventory c source f k l l' h e =
    let w = apply_fill_and_finalize-IsPosted c source f k e in
    subst (Each HasStock) (sym w.closed.positions) (
      apply_fill-Each c source f w.before w.after (subst (Each HasStock) (sym w.opened.positions) h)
        w.posted)

book_sale :
    (c : Context) (n : Decimal) (f : Fill) (b : Books) {b' : Books}
    → book c sell n f b ≡ ok b'
    → (f.quantity ≤ℤ b.position.quantity)
      × (b'.position.quantity ≡ sub c b.position.quantity f.quantity)
unfolding book book_sell write_sale
book_sale c n f b e = ground (arith, average_cost c b.position)

pub posted_position :
    (c : Context) (source : SourceAction) (f : Fill) {l l' : Ledger} (w : IsFilled c source f l l')
    (k : String)
    → lookup k l'.positions
      ≡ (if source.token_id == k then some w.books.position else lookup k l.positions)
unfolding write_books
posted_position c source f {l} {l'} w k =
    ap (λ x. lookup k x.positions) w.result
    ∙ lookup-upsert source.token_id k w.books.position l.positions

apply_fill-sale :
    (c : Context) (source : SourceAction) (f : Fill) (l l' : Ledger)
    → source.side ≡ sell
    → apply_fill c source f l ≡ ok l'
    → (f.quantity ≤ℤ (position_of (lookup source.token_id l.positions)).quantity)
      × ((p : Position) × (lookup source.token_id l'.positions ≡ some p)
          × (p.quantity
              ≡ sub c (position_of (lookup source.token_id l.positions)).quantity f.quantity))
unfolding open_books
apply_fill-sale c source f l l' side e =
    let w = apply_fill-IsFilled c source f e in
    let sale = book_sale c w.notional f (open_books c source w.account l) (rw side at w.booked) in
    (
      sale.0,
      (
        w.books.position,
        posted_position c source f w source.token_id ∙ rw (eq_refl source.token_id),
        sale.1,
      ),
    )

-- A SELL fill is applied only if the position in its token covers it, and is then taken off it.
pub sale_is_covered :
    (c : Context) (source : SourceAction) (f : Fill) (k : Closing) (l l' : Ledger)
    → source.side ≡ sell
    → apply_fill_and_finalize c source f k l ≡ ok l'
    → (f.quantity ≤ℤ (position_of (lookup source.token_id l.positions)).quantity)
      × ((p : Position) × (lookup source.token_id l'.positions ≡ some p)
          × (p.quantity
              ≡ sub c (position_of (lookup source.token_id l.positions)).quantity f.quantity))
sale_is_covered c source f k l l' side e =
    let w = apply_fill_and_finalize-IsPosted c source f k e in
    let (covered, (p, there, left)) = apply_fill-sale c source f w.before w.after side w.posted in
    let same = ap (λ t. (position_of (lookup source.token_id t)).quantity) w.opened.positions in
    (
      subst (λ q. f.quantity ≤ℤ q) same covered,
      (
        p,
        ap (lookup source.token_id) w.closed.positions ∙ there,
        left ∙ ap (λ q. sub c q f.quantity) same,
      ),
    )
