-- ===== src/Parser.antt =====
-- The helpers of src/system/parser.c, and those of src/utils/utils.c that it reads lines with. A line
-- is the list of its bytes before the terminating zero; no byte in it is zero. Lines that come from
-- `fgets` are never NULL.
pub mod Lines
pub mod Lookup
pub mod Scan
pub mod Decimal
pub mod Files
pub mod Words
pub mod RoundTrip
use cmsc125_lab3_sabandal_sa.Common.{
  ℕ, zero, suc, ◌+◌, Bool, true, false, not, ◌||◌, ◌&&◌, Option, none, some, List, [], ◌∷◌, reverse,
  ℤ, pos, negsuc, leb, ◌==◌, ◌==ℤ◌, if◌then◌else◌, modify, map,
}
use cmsc125_lab3_sabandal_sa.Transaction.{Transaction, blank_transaction, init_transaction}

-- `isspace` in the C locale: tab, line feed, vertical tab, form feed, carriage return, space.
abbrev pub isspace : ℕ → Bool
isspace ch = (leb 9 ch && leb ch 13) || ch == 32

abbrev newline : ℕ
newline = 10

abbrev carriage_return : ℕ
carriage_return = 13

abbrev hash : ℕ
hash = 35

-- The loop of `trim_newline`, on the bytes from the last to the first.
unfoldable pub trim_from_end : List ℕ → List ℕ
trim_from_end [] = []
trim_from_end (ch ∷ before) =
    let rest = trim_from_end before in
    if ch == newline || ch == carriage_return || isspace ch then rest else ch ∷ before

unfoldable pub trim_newline : List ℕ → List ℕ
unfolding trim_from_end
trim_newline str = reverse (trim_from_end (reverse str))

unfoldable pub is_empty_line : List ℕ → Bool
is_empty_line [] = true
is_empty_line (ch ∷ str) = let rest = is_empty_line str in if not (isspace ch) then false else rest

unfoldable pub skip_leading_spaces : List ℕ → List ℕ
skip_leading_spaces [] = []
skip_leading_spaces (ch ∷ s) =
    let rest = skip_leading_spaces s in if isspace ch then rest else ch ∷ s

-- The test of the first byte that is left.
abbrev starts_nothing : List ℕ → Bool
starts_nothing [] = true
starts_nothing (ch ∷ line) = ch == newline || ch == hash

unfoldable pub should_skip_line : List ℕ → Bool
unfolding skip_leading_spaces
should_skip_line line = starts_nothing (skip_leading_spaces line)

-- `MAX_TRANSACTIONS`
abbrev pub max_transactions : ℕ
max_transactions = 256

-- Every transaction of the array is initialised.
unfoldable pub init_transactions : List Transaction → List Transaction
init_transactions transactions = map (λ tx. init_transaction tx (negsuc 0) (pos 0)) transactions

-- The first loop of `find_or_create_transaction`, from index `i` on, `rounds` rounds at most.
unfoldable pub find_transaction : List Transaction → ℕ → ℕ → ℤ → Option ℕ
find_transaction [] i rounds tx_id = none
find_transaction (tx ∷ rest) i zero tx_id = none
find_transaction (tx ∷ rest) i (suc rounds) tx_id =
    if tx.tx_id ==ℤ tx_id then some i else find_transaction rest (suc i) rounds tx_id

-- The array and the count are the caller's; a pointer to a transaction is its index.
pub record Trace : Type 0 where
  pub transactions : List Transaction
  pub num_transactions : ℕ

-- A write of a fresh transaction to entry `i`. The array has no entry at its length, and a write
-- there goes past its end: the list grows, so that an array longer than it was shows such a write.
abbrev pub put_fresh : List Transaction → ℕ → ℤ → ℤ → List Transaction
put_fresh [] i tx_id start_tick = init_transaction blank_transaction tx_id start_tick ∷ []
put_fresh (tx ∷ rest) zero tx_id start_tick = init_transaction tx tx_id start_tick ∷ rest
put_fresh (tx ∷ rest) (suc i) tx_id start_tick = tx ∷ put_fresh rest i tx_id start_tick

abbrev pub create_transaction : Trace → ℤ → ℤ → Option ℕ → Option ℕ × Trace
create_transaction t tx_id start_tick (some i) = (some i, t)
create_transaction t tx_id start_tick none =
    if leb max_transactions t.num_transactions then (none, t) else (
      some t.num_transactions,
      record {
        transactions = put_fresh t.transactions t.num_transactions tx_id start_tick;
        num_transactions = t.num_transactions + 1;
      },
    )

unfoldable pub find_or_create_transaction : Trace → ℤ → ℤ → Option ℕ × Trace
unfolding find_transaction
find_or_create_transaction t tx_id start_tick =
    create_transaction t tx_id start_tick
      (find_transaction t.transactions 0 t.num_transactions tx_id)
