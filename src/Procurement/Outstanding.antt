-- ===== src/Procurement/Outstanding.antt =====
-- What completed receipts bring in of an item never exceeds what the purchase order has of it:
-- the lemmas on the sums of src/infrastructure/database/repositories/postgres-procurement-repository.ts.
use new_erp_final.Common.{
  ℕ, ◌+◌, ◌≤◌, ◌≡◌, refl, Bool, false, ◌||◌, Option, none, some, List, [], ◌∷◌, ◌==◌, find,
  update_first, member, arith, inl, inr, Bool-cases, ==_sound,
}
use new_erp_final.Database.{Context}
use new_erp_final.Procurement.Purchasing.{
  PurchaseOrder, Line, Receipt, Purchasing, is_completed, is_planned, has_item, has_duplicates,
  quantity_in, counts, share, received,
}
use new_erp_final.Procurement.Repository.{exceeds, put_line, put_lines}

-- What the line of an item that is found first orders of it.
abbrev pub line_quantity : Option Line → ℕ
line_quantity none = 0
line_quantity (some l) = l.quantity

abbrev pub lines_of : Option PurchaseOrder → List Line
lines_of none = []
lines_of (some o) = o.lines

abbrev pub ordered : Context → ℕ → ℕ → List PurchaseOrder → ℕ
ordered c order item orders =
    line_quantity (find (has_item item) (lines_of (find (is_planned c order) orders)))

-- The completed receipts of an order bring in no more of any item than it orders, and no receipt
-- has two lines of an item.
pub record IsWithin (s : Purchasing) : Type 0 where
  pub once : member (λ r. has_duplicates r.lines) s.receipts ≡ false
  pub bounded :
      (c : Context) (order item : ℕ)
      → received (counts c order) item s.receipts ≤ ordered c order item s.orders

pub received-update :
    (p : Receipt → Bool) (item : ℕ) (q : Receipt → Bool) (f : Receipt → Receipt) (rs : List Receipt)
    {r : Receipt}
    → find q rs ≡ some r
    → received p item (update_first q f rs) + share p item r
      ≡ received p item rs + share p item (f r)
unfolding received
received-update p item q f [] found = cc
received-update p item q f (x ∷ rs) {r} found =
    ground (arith, received-update p item q f rs {r = r})

pub once-update :
    (q : Receipt → Bool) (f : Receipt → Receipt) (rs : List Receipt) {r : Receipt}
    → find q rs ≡ some r
    → has_duplicates (f r).lines ≡ false
    → member (λ r. has_duplicates r.lines) rs ≡ false
    → member (λ r. has_duplicates r.lines) (update_first q f rs) ≡ false
once-update q f [] found distinct h = cc
once-update q f (x ∷ rs) {r} found distinct h = ground (arith, once-update q f rs {r = r})

pub once-find :
    (q : Receipt → Bool) (rs : List Receipt) {r : Receipt}
    → find q rs ≡ some r
    → member (λ r. has_duplicates r.lines) rs ≡ false
    → has_duplicates r.lines ≡ false
once-find q [] found h = cc
once-find q (x ∷ rs) {r} found h = ground (arith, once-find q rs {r = r})

quantity_in-absent :
    (item : ℕ) (ls : List Line) → member (has_item item) ls ≡ false → quantity_in item ls ≡ 0
unfolding quantity_in
quantity_in-absent item [] h = refl
quantity_in-absent item (l ∷ ls) h = ground (arith, quantity_in-absent item ls)

-- The check of `completeReceipt`, line by line, bounds the sums.
pub exceeds-bound :
    (p : Receipt → Bool) (receipts : List Receipt) (lines : List Line) (item : ℕ) (ls : List Line)
    → received p item receipts ≤ line_quantity (find (has_item item) lines)
    → has_duplicates ls ≡ false
    → member (exceeds p receipts lines) ls ≡ false
    → received p item receipts + quantity_in item ls ≤ line_quantity (find (has_item item) lines)
unfolding quantity_in has_duplicates exceeds
exceeds-bound p receipts lines item [] h distinct fits = ground arith
exceeds-bound p receipts lines item (l ∷ ls) h distinct fits = elim (Bool-cases (l.item == item)) [
  | inl same ↦
      let here : l.item ≡ item = ==_sound l.item item same in
      let gone : member (has_item item) ls ≡ false = ground (arith, distinct, here) in
      ground (arith, here, quantity_in-absent item ls gone)
  | inr other ↦ ground (arith, exceeds-bound p receipts lines item ls)
]

member-put_line :
    (item : ℕ) (l : Line) (xs : List Line)
    → member (has_item item) (put_line l xs) ≡ (member (has_item item) xs || (l.item == item))
unfolding put_line
member-put_line item l [] = ground arith
member-put_line item l (x ∷ xs) = ground (arith, member-put_line item l xs)

put_line_distinct :
    (l : Line) (xs : List Line) → has_duplicates xs ≡ false → has_duplicates (put_line l xs) ≡ false
unfolding put_line has_duplicates
put_line_distinct l [] h = ground arith
put_line_distinct l (x ∷ xs) h = ground (arith, put_line_distinct l xs, member-put_line x.item l xs)

pub put_lines_distinct :
    (ls xs : List Line) → has_duplicates xs ≡ false → has_duplicates (put_lines ls xs) ≡ false
unfolding put_lines
put_lines_distinct [] xs h = h
put_lines_distinct (l ∷ ls) xs h = put_lines_distinct ls (put_line l xs) (put_line_distinct l xs h)

-- A receipt that is not completed counts against no order.
pub quiet :
    (c : Context) (order item : ℕ) (r : Receipt)
    → is_completed r.status ≡ false
    → share (counts c order) item r ≡ 0
unfolding counts
quiet c order item r h = ground arith
