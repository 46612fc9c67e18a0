-- ===== src/Queue/Tests.antt =====
-- A queue of numbers with numbers as priorities, and the theorems at it.
use rosnavigation2copy.Prelude.{ℕ, ◌≡◌, refl, true, false, [], ◌∷◌, arith, ltb, ◌==◌}
use rosnavigation2copy.Queue
use rosnavigation2copy.Queue.{
  Priority, Front, value, out_of_range, find, insert_bin, change_bin, first_full, find_full_from,
  locate, pop_back, pop_at,
}
use rosnavigation2copy.Queue.Entries.{entries, tagged, tail, insert}
use rosnavigation2copy.Queue.Refine.{IsValid, view, enqueue-insert, pop-tail, new-IsValid}

pub nat_total : (a b : ℕ) → ltb a b ≡ false → ltb b a ≡ false → a ≡ b
nat_total a b h k = ground arith

pub nat_irrefl : (a : ℕ) → ltb a a ≡ false
nat_irrefl a = ground arith

pub nat_trans : (a b c : ℕ) → ltb a b ≡ true → ltb b c ≡ true → ltb a c ≡ true
nat_trans a b c h k = ground arith

pub nat_eqb : (a b : ℕ) → (a == b) ≡ true → a ≡ b
nat_eqb a b h = ground arith

abbrev pub by_number : Priority ℕ
by_number = record {
  lt = ltb;
  eqb = ◌==◌;
  irrefl = nat_irrefl;
  trans = nat_trans;
  total = nat_total;
  eqb_eq = nat_eqb;
}

abbrev start : Queue.Queue ℕ ℕ
start = Queue.new by_number true

abbrev one : Queue.Queue ℕ ℕ
one = Queue.enqueue by_number 5 50 start

abbrev three : Queue.Queue ℕ ℕ
three = Queue.enqueue by_number 5 51 (Queue.enqueue by_number 2 20 one)

start-IsValid : IsValid by_number start
start-IsValid = (new-IsValid by_number true).0

one-IsValid : IsValid by_number one
unfolding Queue.new Queue.reset entries
one-IsValid = (enqueue-insert by_number 5 50 start start-IsValid (omega arith)).0

-- The least priority leaves first, and of two equal ones the later.
leaves : view by_number three ≡ (2, 20) ∷ (5, 51) ∷ (5, 50) ∷ []
unfolding Queue.new Queue.reset Queue.enqueue locate find insert_bin change_bin entries tagged
leaves = refl

enqueue-insert_example :
    IsValid by_number one × (view by_number one ≡ insert by_number 5 50 (view by_number start))
unfolding Queue.new Queue.reset entries
enqueue-insert_example = enqueue-insert by_number 5 50 start start-IsValid (omega arith)

pop-tail_example :
    IsValid by_number (Queue.pop by_number one)
    × (view by_number (Queue.pop by_number one) ≡ tail (view by_number one))
pop-tail_example = pop-tail by_number one one-IsValid
