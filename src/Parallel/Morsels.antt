-- ===== src/Parallel/Morsels.antt =====
-- src/parallel/morsel-scheduler.ts: workers claim ranges of units from one shared counter.
--
-- The counter is an `Int32Array` of length one, here the word that it stores. `Atomics.add` makes each
-- `next` one step, so that what any number of workers do is a sequence of calls. `attach` and
-- `descriptor` only pass the state on.
pub mod Partition
pub mod Drain
use query_engine.Prelude.{
  ℕ, zero, suc, ◌+◌, ◌-◌, ◌%◌, ◌^◌, max, Option, none, some, List, [], ◌∷◌, ltb, if◌then◌else◌,
}
use query_engine.Prelude.Int.{ℤ, pos, negsuc, ◌+ℤ◌, ltb_ℤ, pos_part}

-- The number that an `Int32Array` reads from a stored word.
unfoldable pub to_int32 : ℕ → ℤ
to_int32 word = if ltb word 2147483648 then pos word else negsuc (4294967296 - word - 1)

pub record Morsels : Type 0 where
  pub total_units : ℕ
  pub units_per_morsel : ℕ
  pub counter : ℕ

pub record MorselRange : Type 0 where
  pub start : ℤ
  pub stop : ℤ

-- `unitsPerMorsel | 0` reads the low 32 bits as a signed number.
unfoldable pub morsel_scheduler : ℕ → ℕ → Morsels
unfolding to_int32
morsel_scheduler total units = record {
  total_units = total;
  units_per_morsel = max 1 (pos_part (to_int32 (units % 4294967296)));
  counter = 0;
}

unfoldable pub min_ℤ : ℤ → ℤ → ℤ
min_ℤ a b = if ltb_ℤ b a then b else a

-- What `next` returns, from the value that `Atomics.add` returns.
unfoldable pub range_at : Morsels → ℤ → Option MorselRange
unfolding ◌+ℤ◌ min_ℤ
range_at s start =
    if ltb_ℤ start (pos s.total_units)
    then some (record {
      start = start;
      stop = min_ℤ (start +ℤ pos s.units_per_morsel) (pos s.total_units);
    })
    else none

unfoldable pub next : Morsels → Option MorselRange × Morsels
unfolding to_int32 range_at
next s = (
  range_at s (to_int32 s.counter),
  record {
    total_units = s.total_units;
    units_per_morsel = s.units_per_morsel;
    counter = (s.counter + s.units_per_morsel) % 4294967296;
  },
)

abbrev pub Worker : Type 0
Worker = ℕ

abbrev pub claimed :
    Worker → Option MorselRange → List (Worker × MorselRange) → List (Worker × MorselRange)
claimed w none rest = rest
claimed w (some r) rest = (w, r) ∷ rest

-- What the workers get when they call `next` in this order, and the state they leave.
unfoldable pub claims : List Worker → Morsels → List (Worker × MorselRange)
unfolding next
claims [] s = []
claims (w ∷ ws) s = let step = next s in claimed w step.0 (claims ws step.1)

abbrev pub yielded : Option MorselRange → List MorselRange → List MorselRange
yielded none rest = []
yielded (some r) rest = r ∷ rest

-- `drain`: the ranges of one worker's calls up to the first that gets none. Every call that gets a
-- range passes at least one unit, so more calls than there are units are enough.
unfoldable pub drain : ℕ → Morsels → List MorselRange
unfolding next
drain zero s = []
drain (suc fuel) s = let step = next s in yielded step.0 (drain fuel step.1)
