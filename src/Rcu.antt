-- ===== src/Rcu.antt =====
-- sotfs-graph/src/rcu.rs: the graph in two copies, for readers without a lock and one writer at a
-- time. Each thread is at a place of its code, and a run is a list of moves, each of which is one
-- atomic operation of one thread. The graph is a parameter. The copies are boxes on a heap: the
-- writer stores a new box over the old inactive one by `ptr::write`, which frees nothing.
pub mod Writers
pub mod Published
pub mod Readers
pub mod Torn
pub mod Gone
pub mod Progress
use sotfs.Base.{
  ℕ, zero, suc, ◌+◌, ◌-◌, ◌%◌, ◌^◌, Bool, true, false, ◌&&◌, ◌||◌, not, List, [], ◌∷◌, ltb, leb,
  ◌==◌, if◌then◌else◌,
}
use sotfs.Arena.{write}

abbrev pub max_readers : ℕ
max_readers = 64

-- The places of `read`: `rcu_read_lock` at a slot, the load of `active`, the closure with its
-- reference, and `rcu_read_unlock`.
pub data Reader : Type 0 where
  idle : Reader
  scanning : (epoch slot : ℕ) → Reader
  registered : (slot : ℕ) → Reader
  indexed : (slot index : ℕ) → Reader
  reading : (slot index box : ℕ) → Reader
  panicked : Reader

-- The places of `write`: the lock, the load of `active`, the snapshot of the epoch, the closure on
-- the copy, the swap, and `rcu_synchronize` at a slot.
pub data Writer : Type 0 where
  idle : Writer
  locked : Writer
  chosen : (current : ℕ) → Writer
  stamped : (current epoch : ℕ) → Writer
  mutating : (current epoch box : ℕ) → Writer
  mutated : (current epoch : ℕ) → Writer
  waiting : (epoch slot : ℕ) → Writer

pub record RcuGraph (S : Type 0) : Type 0 where
  pub heap : ℕ → S
  pub next_box : ℕ
  pub graphs : ℕ → ℕ
  pub active : ℕ
  pub global_epoch : ℕ
  pub reader_epochs : ℕ → ℕ
  pub write_locked : Bool
  pub readers : ℕ → Reader
  pub writers : ℕ → Writer

-- A thread goes on, or the closure of a writer stores a graph.
pub data Move (S : Type 0) : Type 0 where
  reader : (r : ℕ) → Move S
  writer : (w : ℕ) → Move S
  store : (w : ℕ) (graph : S) → Move S

-- `fetch_add(1) + 1` on a u64.
abbrev pub next_epoch : ℕ → ℕ
next_epoch epoch = (epoch + 1) % 2 ^ 64

module _ {S : Type 0} where
  abbrev pub set_reader : ℕ → Reader → RcuGraph S → RcuGraph S
  set_reader r at s = record s { readers = write s.readers r at }

  abbrev pub set_writer : ℕ → Writer → RcuGraph S → RcuGraph S
  set_writer w at s = record s { writers = write s.writers w at }

  -- The compare-and-exchange of `rcu_read_lock` at one slot.
  abbrev pub claim : ℕ → ℕ → ℕ → RcuGraph S → RcuGraph S
  claim r epoch slot s =
      if s.reader_epochs slot == 0
      then set_reader r (registered slot)
          (record s { reader_epochs = write s.reader_epochs slot epoch })
      else set_reader r (scanning epoch (suc slot)) s

  unfoldable pub reader_step : ℕ → Reader → RcuGraph S → RcuGraph S
  reader_step r Reader.idle s =
      set_reader r (scanning (next_epoch s.global_epoch) 0)
        (record s { global_epoch = next_epoch s.global_epoch })
  reader_step r (scanning epoch slot) s =
      if ltb slot max_readers then claim r epoch slot s else set_reader r panicked s
  reader_step r (registered slot) s = set_reader r (indexed slot s.active) s
  reader_step r (indexed slot index) s = set_reader r (reading slot index (s.graphs index)) s
  reader_step r (reading slot index box) s =
      set_reader r Reader.idle (record s { reader_epochs = write s.reader_epochs slot 0 })
  reader_step r panicked s = s

  -- The load of `rcu_synchronize` at one slot; it starts again at a reader from before the snapshot.
  abbrev pub wait_at : ℕ → ℕ → ℕ → RcuGraph S → RcuGraph S
  wait_at w epoch slot s =
      let e = s.reader_epochs slot in
      if not (e == 0) && leb e epoch
      then set_writer w (waiting epoch 0) s
      else set_writer w (waiting epoch (suc slot)) s

  unfoldable pub writer_step : ℕ → Writer → RcuGraph S → RcuGraph S
  writer_step w Writer.idle s =
      if s.write_locked then s else set_writer w locked (record s { write_locked = true })
  writer_step w locked s = set_writer w (chosen s.active) s
  writer_step w (chosen current) s = set_writer w (stamped current s.global_epoch) s
  writer_step w (stamped current epoch) s =
      set_writer w (mutating current epoch s.next_box) (record s {
        heap = write s.heap s.next_box (s.heap (s.graphs current));
        next_box = suc s.next_box;
        graphs = write s.graphs (1 - current) s.next_box;
      })
  writer_step w (mutating current epoch box) s = set_writer w (mutated current epoch) s
  writer_step w (mutated current epoch) s =
      set_writer w (waiting epoch 0) (record s { active = 1 - current })
  writer_step w (waiting epoch slot) s =
      if ltb slot max_readers
      then wait_at w epoch slot s
      else set_writer w Writer.idle (record s { write_locked = false })

  -- A write of the closure through its reference.
  unfoldable pub store_step : Writer → S → RcuGraph S → RcuGraph S
  store_step (mutating current epoch box) graph s = record s { heap = write s.heap box graph }
  store_step _ graph s = s

  unfoldable pub step : Move S → RcuGraph S → RcuGraph S
  unfolding reader_step writer_step store_step
  step (reader r) s = reader_step r (s.readers r) s
  step (writer w) s = writer_step w (s.writers w) s
  step (store w graph) s = store_step (s.writers w) graph s

  unfoldable pub run : List (Move S) → RcuGraph S → RcuGraph S
  unfolding step
  run [] s = s
  run (m ∷ moves) s = run moves (step m s)

  -- `from_graph`; `new` is the same with two new graphs.
  unfoldable pub from_graph : S → RcuGraph S
  from_graph graph = record {
    heap = λ b. graph;
    next_box = 2;
    graphs = λ i. i;
    active = 0;
    global_epoch = 1;
    reader_epochs = λ i. 0;
    write_locked = false;
    readers = λ r. Reader.idle;
    writers = λ w. Writer.idle;
  }
