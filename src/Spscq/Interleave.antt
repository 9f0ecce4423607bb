-- ===== src/Spscq/Interleave.antt =====
-- spscq_push and spscq_pop of src/engine/base/spscq.c as two threads: each load or store of a shared
-- location is one step, and the steps interleave in any order.
use ats.Base.{ℕ, ◌≡◌, ◌≢◌, List, [], ◌∷◌, ◌++◌, null, get_or, set}
use ats.Spscq.{Spscq, next_record}

-- Where the producer stands in `spscq_push(q, e)`, with its local variables: `currentWrite` is
-- loaded; the test against `read_pos` has passed; the record is stored.
pub data Producer : Type 0 where
  idle : Producer
  loaded tested stored : (e current_write : ℕ) → Producer

-- Where the consumer stands in `spscq_pop(q)`: `currentRead` is loaded; the test against `write_pos`
-- has passed; `read_pos` is stored, and the record is still to be read.
pub data Consumer : Type 0 where
  idle : Consumer
  loaded tested stored : (current_read : ℕ) → Consumer

-- `sent` is what `spscq_push` has queued and `received` what `spscq_pop` has returned, in order.
pub record System : Type 0 where
  pub q : Spscq
  pub producer : Producer
  pub consumer : Consumer
  pub sent : List ℕ
  pub received : List ℕ

pub data Step (s : System) : System → Type 0 where
  -- spscq_push: currentWrite = load(write_pos)
  load_write :
      (e : ℕ)
      → s.producer ≡ Producer.idle
      → Step s (record s { producer = Producer.loaded e s.q.write_pos })
  -- nextRecord == load(read_pos): return -1
  refuse :
      (e w : ℕ)
      → s.producer ≡ Producer.loaded e w
      → next_record s.q.capacity w ≡ s.q.read_pos
      → Step s (record s { producer = Producer.idle })
  -- nextRecord != load(read_pos)
  pass_write :
      (e w : ℕ)
      → s.producer ≡ Producer.loaded e w
      → next_record s.q.capacity w ≢ s.q.read_pos
      → Step s (record s { producer = Producer.tested e w })
  -- q->records[currentWrite] = e
  store_record :
      (e w : ℕ)
      → s.producer ≡ Producer.tested e w
      → Step s (record s {
        q = record (s.q) { records = set s.q.records w e };
        producer = Producer.stored e w;
      })
  -- store(write_pos, nextRecord); return 0
  store_write :
      (e w : ℕ)
      → s.producer ≡ Producer.stored e w
      → Step s (record s {
        q = record (s.q) { write_pos = next_record s.q.capacity w };
        producer = Producer.idle;
        sent = s.sent ++ (e ∷ []);
      })
  -- spscq_pop: currentRead = load(read_pos)
  load_read :
      s.consumer ≡ Consumer.idle → Step s (record s { consumer = Consumer.loaded s.q.read_pos })
  -- currentRead == load(write_pos): return NULL
  find_empty :
      (r : ℕ)
      → s.consumer ≡ Consumer.loaded r
      → r ≡ s.q.write_pos
      → Step s (record s { consumer = Consumer.idle })
  -- currentRead != load(write_pos)
  pass_read :
      (r : ℕ)
      → s.consumer ≡ Consumer.loaded r
      → r ≢ s.q.write_pos
      → Step s (record s { consumer = Consumer.tested r })
  -- store(read_pos, nextRecord)
  store_read :
      (r : ℕ)
      → s.consumer ≡ Consumer.tested r
      → Step s (record s {
        q = record (s.q) { read_pos = next_record s.q.capacity r };
        consumer = Consumer.stored r;
      })
  -- return q->records[currentRead]
  read_record :
      (r : ℕ)
      → s.consumer ≡ Consumer.stored r
      → Step s (record s {
        consumer = Consumer.idle;
        received = s.received ++ (get_or s.q.records r null ∷ []);
      })

-- The states that the threads reach from a queue that holds nothing.
pub data Reach (q : Spscq) : System → Type 0 where
  start : Reach q (record {
    q = q;
    producer = Producer.idle;
    consumer = Consumer.idle;
    sent = [];
    received = [];
  })
  later : {s t : System} → Reach q s → Step s t → Reach q t
