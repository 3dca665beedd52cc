-- ===== src/Core/Reconciler.antt =====
-- hobo/core/fill_reconciler.py: the fills that the venue reports over REST. The account client is a
-- function from a cursor to a page; clocks are arguments, and times are integers.
pub mod Fetched
pub mod Complete
use Prim.Native.Nat.{◌+◌, ◌-◌}
use Prim.Native.String.{String, [] as empty, ◌∷◌ as cons, len, slice}
use Prim.Native.Char.{Char, code}
use text.Mathlib.Text.{starts_with}
use hobo.Prelude.{
  ℕ, zero, suc, Bool, true, false, Option, none, some, List, [], ◌∷◌, ◌++◌, leb, ltb, str_eq,
  if◌then◌else◌, ◌&&◌, not,
}
use hobo.Core.Event.{FillEvent}
use hobo.Core.Ingestor.{member, truthy, FillIngestor, submit}

abbrev pub base_slack_ns : ℕ
base_slack_ns = 60000000000

abbrev pub min_fill_age_ns : ℕ
min_fill_age_ns = 10000000000

abbrev pub max_pages : ℕ
max_pages = 10

-- `ExchangeFill` of hobo/adapters/base.py, as the code reads it. An empty cursor is `None` or "".
pub record ExchangeFill (F : Type 0) : Type 0 where
  pub trade_id : String
  pub client_order_id : String
  pub instrument_id : String
  pub side : String
  pub qty : F
  pub price : F
  pub fee : F
  pub ts_ns : ℕ
  pub cursor : String

module _ {F : Type 0} where
  -- The test of `collected.extend`.
  abbrev pub is_new : ℕ → List String → ExchangeFill F → Bool
  is_new baseline_ns seen f =
      leb baseline_ns f.ts_ns && (truthy f.trade_id && not (member f.trade_id seen))

  unfoldable pub new_fills : ℕ → List String → List (ExchangeFill F) → List (ExchangeFill F)
  new_fills baseline_ns seen [] = []
  new_fills baseline_ns seen (f ∷ page) =
      let rest = new_fills baseline_ns seen page in
      if is_new baseline_ns seen f then f ∷ rest else rest

  abbrev pub any_older : ℕ → List (ExchangeFill F) → Bool
  any_older baseline_ns [] = false
  any_older baseline_ns (f ∷ page) =
      if ltb f.ts_ns baseline_ns then true else any_older baseline_ns page

  -- `page[-1].cursor`, of a page that is not empty.
  abbrev pub last_cursor : ExchangeFill F → List (ExchangeFill F) → String
  last_cursor f [] = f.cursor
  last_cursor f (g ∷ page) = last_cursor g page

  -- The loop of `_fetch_new`, for the pages that are left.
  unfoldable pub fetch_pages :
      (Option String → List (ExchangeFill F))
      → ℕ
      → List String
      → ℕ
      → Option String
      → List (ExchangeFill F)
  fetch_pages fills baseline_ns seen zero after_cursor = []
  fetch_pages fills baseline_ns seen (suc pages) after_cursor = elim (fills after_cursor) [
    | [] ↦ []
    | f ∷ page ↦
        let cursor = last_cursor f page in
        let rest = fetch_pages fills baseline_ns seen pages (some cursor) in
        new_fills baseline_ns seen (f ∷ page)
        ++ (if any_older baseline_ns (f ∷ page) then [] else if truthy cursor then rest else [])
  ]

  unfoldable pub fetch_new :
      (Option String → List (ExchangeFill F)) → ℕ → List String → List (ExchangeFill F)
  fetch_new fills baseline_ns seen = fetch_pages fills baseline_ns seen max_pages none

-- `sorted(books, key=len, reverse=True)`: by insertion, stable.
unfoldable pub insert_longest : String → List String → List String
insert_longest b [] = b ∷ []
insert_longest b (c ∷ cs) = if leb (len c) (len b) then b ∷ (c ∷ cs) else c ∷ insert_longest b cs

unfoldable pub longest_first : List String → List String
longest_first [] = []
longest_first (b ∷ bs) = insert_longest b (longest_first bs)

-- `rest.isdigit()` on ASCII digits; it is false of the empty string.
unfoldable pub all_digits : String → Bool
all_digits empty = true
all_digits (cons c s) = (leb 48 (code c) && leb (code c) 57) && all_digits s

unfoldable pub first_owner : String → List String → Option String
first_owner client_order_id [] = none
first_owner client_order_id (b ∷ bs) =
    let rest = slice client_order_id (len b) (len client_order_id) in
    if starts_with client_order_id b && (truthy rest && all_digits rest)
    then some b
    else first_owner client_order_id bs

-- `_attribute`
unfoldable pub attribute : String → List String → Option String
attribute client_order_id books = first_owner client_order_id (longest_first books)

module _ {F : Type 0} where
  abbrev pub adopted_fill : String → ExchangeFill F → FillEvent F
  adopted_fill book_id f = record {
    order_id = if truthy f.client_order_id then f.client_order_id else f.trade_id;
    book_id = book_id;
    instrument_id = f.instrument_id;
    side = f.side;
    qty = f.qty;
    fill_price = f.price;
    fee = f.fee;
    trade_id = f.trade_id;
  }

  -- The body of the loop of `_submit`: a fill that is too fresh or that no book owns is passed over.
  unfoldable pub submit_one : List String → ℕ → FillIngestor F → ExchangeFill F → FillIngestor F
  submit_one books now_ns g f =
      if ltb now_ns (f.ts_ns + min_fill_age_ns)
      then g
      else elim (attribute f.client_order_id books) [
        | none ↦ g
        | some book_id ↦ (submit g (adopted_fill book_id f)).1
      ]

  -- `_submit`: `reversed(fills)`, so that the last one goes first.
  unfoldable pub submit_reversed :
      List String → ℕ → FillIngestor F → List (ExchangeFill F) → FillIngestor F
  submit_reversed books now_ns g [] = g
  submit_reversed books now_ns g (f ∷ fs) =
      submit_one books now_ns (submit_reversed books now_ns g fs) f

  -- One round of `run`, and the baseline that it starts from.
  abbrev pub baseline : FillIngestor F → ℕ → ℕ
  baseline g now_ns = if ltb 0 g.last_fill_ns then g.last_fill_ns - base_slack_ns else now_ns

  unfoldable pub poll :
      (Option String → List (ExchangeFill F))
      → ℕ
      → List String
      → ℕ
      → FillIngestor F
      → FillIngestor F
  poll fills baseline_ns books now_ns g =
      submit_reversed books now_ns g (fetch_new fills baseline_ns g.seen)
