-- ===== src/CircularBuffer.antt =====
-- seq/tiered_vector.hpp: `CircularBuffer`, the buckets of a tiered vector. This file has the state,
-- the access to elements and the operations at both ends.
pub mod Masks
pub mod View
pub mod Turn
pub mod Cells
pub mod Ends
pub mod Exchange
pub mod Shift
pub mod Insert
pub mod Erase
pub mod Resize
mod Tests
use Prim.Native.Nat.{bit_and}
use seq.Prelude.{
  ℕ, zero, suc, ◌+◌, ◌-◌, Bool, true, false, Option, none, some, ◌==◌, ltb, if◌then◌else◌,
}
use seq.Memory.{
  Cell, live, raw, World, Outcome, ok, threw, fault, ◌>>=◌, object, is_raw, put, construct_ptr,
  destroy_ptr,
}

-- What the code asks of the element type: whether it is `relocatable`, what its default constructor
-- makes, and what a moved object is left with. Moves do not throw.
pub record Element (A : Type 0) : Type 0 where
  pub relocatable : Bool
  pub blank : A
  pub husk : A → A

-- `BaseCircularBuffer`; `buffer` is the address of the first cell. `cbuffer_pos` is a signed type.
pub record Ring : Type 0 where
  pub buffer : ℕ
  pub size : ℕ
  pub max_size1 : ℕ
  pub max_size : ℕ
  pub begin : ℕ

pub record State (A : Type 0) : Type 0 where
  pub ring : Ring
  pub world : World A

-- The constructor, and `init_front`.
abbrev pub new_ring : ℕ → ℕ → Ring
new_ring buffer max_size = record {
  buffer = buffer;
  size = 0;
  max_size1 = max_size - 1;
  max_size = max_size;
  begin = 0;
}

abbrev pub init_front : Ring → Ring
init_front b = record b { begin = 0; size = 0 }

abbrev pub is_full : Ring → Bool
is_full b = b.size == b.max_size

-- `&at(index)`, and `&(*this)[index]`.
unfoldable pub at : Ring → ℕ → ℕ
at b index = b.buffer + bit_and (b.begin + index) b.max_size1

-- `if (--begin < 0) begin = max_size1;`
abbrev pub step_down : Ring → Ring
step_down b = record b { begin = if b.begin == 0 then b.max_size1 else b.begin - 1 }

-- `begin = (begin + 1) & max_size1;`
abbrev pub step_up : Ring → Ring
step_up b = record b { begin = bit_and (b.begin + 1) b.max_size1 }

module _ {A : Type 0} where
  -- The state with ring `b`, and the one with ring `b` or, if the operation throws, ring `c`.
  abbrev pub finish : Ring → Ring → Outcome (World A) → Outcome (State A)
  finish b c (ok w) = ok (record { ring = b; world = w })
  finish b c (threw w) = threw (record { ring = c; world = w })
  finish b c fault = fault

  -- Only works for a buffer that is not full.
  unfoldable pub emplace_back : A → State A → Outcome (State A)
  emplace_back v s =
      let b = s.ring in
      let ptr = if b.begin == 0 then b.buffer + b.size else at b b.size in
      finish (record b { size = b.size + 1 }) b (construct_ptr false ptr v s.world)

  -- The handler of `emplace_front` steps up again.
  unfoldable pub emplace_front : A → State A → Outcome (State A)
  emplace_front v s =
      let b = step_down s.ring in
      finish (record b { size = b.size + 1 }) (step_up b)
        (construct_ptr false (b.buffer + b.begin) v s.world)

  unfoldable pub pop_back : State A → Outcome (State A)
  pop_back s =
      let b = s.ring in
      finish (record b { size = b.size - 1 }) b (destroy_ptr (at b (b.size - 1)) s.world)

  unfoldable pub pop_front : State A → Outcome (State A)
  pop_front s =
      let b = s.ring in
      finish (record (step_up b) { size = b.size - 1 }) b (destroy_ptr (b.buffer + b.begin) s.world)

  -- The loop of `pop_front_n`.
  unfoldable pub pop_front_n : ℕ → State A → Outcome (State A)
  pop_front_n zero s = ok s
  pop_front_n (suc n) s = pop_front s >>= pop_front_n n

  -- The loop of `push_front_n`: if a construction throws, the objects before it stay.
  unfoldable pub push_front_n : ℕ → A → State A → Outcome (State A)
  push_front_n zero v s = ok s
  push_front_n (suc n) v s = emplace_front v s >>= push_front_n n v

  -- The object at `p` is moved out, to a variable: a relocatable type leaves no object behind.
  unfoldable pub take_out : Element A → ℕ → World A → Outcome (A × World A)
  take_out el p w = elim (object (w.cell p)) [
    | none ↦ fault
    | some v ↦
        ok (v, record w { cell = put w.cell p (if el.relocatable then raw else live (el.husk v)) })
  ]

  -- A variable is moved into `p`: onto the object there, or for a relocatable type into its
  -- storage.
  unfoldable pub put_in : Element A → ℕ → A → World A → Outcome (World A)
  put_in el p v w =
      if el.relocatable
      then (if is_raw (w.cell p) then ok (record w { cell = put w.cell p (live v) }) else fault)
      else elim (object (w.cell p)) [
        | none ↦ fault
        | some _ ↦ ok (record w { cell = put w.cell p (live v) })
      ]

  -- What both leave: the value moved out, and the state.
  abbrev pub give : A → Ring → Outcome (World A) → Outcome (A × State A)
  give res b (ok w) = ok (res, record { ring = b; world = w })
  give res b (threw w) = threw (res, record { ring = b; world = w })
  give res b fault = fault

  -- Only works for a full buffer. The value that leaves is the second `inout`.
  unfoldable pub push_front_pop_back : Element A → A → State A → Outcome (A × State A)
  push_front_pop_back el inout s =
      let b = step_down s.ring in
      elim (take_out el (at s.ring (s.ring.size - 1)) s.world) [
        | ok r ↦ give r.0 b (put_in el (b.buffer + b.begin) inout r.1)
        | threw r ↦ fault
        | fault ↦ fault
      ]

  unfoldable pub push_back_pop_front : Element A → A → State A → Outcome (A × State A)
  push_back_pop_front el inout s =
      let b = step_up s.ring in
      elim (take_out el (s.ring.buffer + s.ring.begin) s.world) [
        | ok r ↦ give r.0 b (put_in el (at b (b.size - 1)) inout r.1)
        | threw r ↦ fault
        | fault ↦ fault
      ]
